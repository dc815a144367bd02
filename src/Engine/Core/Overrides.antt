-- ===== src/Engine/Core/Overrides.antt =====
-- engine/core.go: the overrides that the engine remembers.
use seesaw.Base.{ℕ, ◌≡◌, ap, false, List, [], ◌∷◌, arith, insert}
use seesaw.Engine.Core.Defs.{Override, target, state_of, is_default, Engine, handle_override}

insert-insert :
    (k : ℕ) (o p : Override) (m : List (ℕ × Override)) → insert k p (insert k o m) ≡ insert k p m
insert-insert k o p [] = ground arith
insert-insert k o p ((j, q) ∷ m) = ground (arith, insert-insert k o p m)

-- After two overrides whose targets have the same name, of which the first one sets a state, the
-- engine remembers what it would remember had it never had the first one. For two destinations the
-- target is the name of the destination without that of its vserver.
pub handle_override-same_target :
    (e : Engine) (o p : Override)
    → is_default (state_of o) ≡ false
    → target o ≡ target p
    → (handle_override (handle_override e o) p).overrides ≡ (handle_override e p).overrides
unfolding handle_override
handle_override-same_target e o p set same =
    ground (arith, insert-insert (target p) o p e.overrides, ap (λ k. insert k o e.overrides) same)
