-- ===== src/Engine/Vserver/Config/Families.antt =====
-- engine/vserver.go: a firewall mark vserver that gets an address of another family.
use mathlib.Core.Option as Option
use seesaw.Base.{
  ℕ, ◌≡◌, refl, ap, ◌∙◌, Bool, true, false, none, some, List, [], ◌∷◌, arith, Bool-cases,
  Option-cases, inl, inr, is_some,
}
use seesaw.Engine.Vserver.Data.{Backend, ServiceKey, Service, Destination, Env}
use seesaw.Engine.Vserver.Service.{update_dest_list, update_dests, service_up, service_down}
use seesaw.Engine.Vserver.State.{
  Vserver, same_key, find, update_service, update_service_list, vserver_health,
}
use seesaw.Engine.Vserver.Addresses.{update_state_effect}
use seesaw.Engine.Vserver.Events.{find_dest}
use seesaw.Engine.Vserver.Config.Data.{Config, Configured}
use seesaw.Engine.Vserver.Config.Expand.{
  put_service, new_dest, put_dest, expand_dests, backend_address,
}
use seesaw.Engine.Vserver.Config.Services.{add_service}
use seesaw.Engine.Vserver.Config.Dests.{
  add_new_dest, add_or_update_dest, add_or_update_dests, update_dests_under, has_service_key,
}

-- What two services have in common if they have the same destinations to come, and none yet.
abbrev IsEmptyLike : Service → Service → Type 0
IsEmptyLike s t = (t.key ≡ s.key) × (t.ventry ≡ s.ventry) × (t.dests ≡ [])

update_service-IsEmptyLike :
    (up : Bool) (ip : ℕ) (s : Service) → s.dests ≡ [] → IsEmptyLike s (update_service up ip s).0
unfolding update_service service_up service_down update_dests update_dest_list
update_service-IsEmptyLike up ip s none_yet = (ground arith, ground arith, ground arith)

update_service-key : (up : Bool) (ip : ℕ) (s : Service) → (update_service up ip s).0.key ≡ s.key
unfolding update_service service_up service_down update_dests
update_service-key up ip s = ground arith

pub find-update_service_list :
    (up : Bool) (ip : ℕ) (key : ServiceKey) (ss : List Service) (s : Service)
    → find key ss ≡ some s
    → find key (update_service_list up ip ss).0 ≡ some (update_service up ip s).0
unfolding update_service_list
find-update_service_list up ip key [] s e = absurd (ground arith)
find-update_service_list up ip key (t ∷ ts) s e = elim (Bool-cases (same_key t.key key)) [
  | inl here ↦
      let same : t ≡ s = Option.some-injective t s (rw (here) at e) in
      rw (update_service-key up ip t, here)
        (ap (λ (x : Service). some (update_service up ip x).0) same)
  | inr there ↦
      rw (update_service-key up ip t, there)
        (find-update_service_list up ip key ts s (rw (there) at e))
]

same_key_refl : (key : ServiceKey) → same_key key key ≡ true
same_key_refl key = ground arith

find-put_service : (s : Service) (ss : List Service) → find s.key (put_service s ss) ≡ some s
find-put_service s [] = ground (arith, same_key_refl s.key)
find-put_service s (t ∷ ts) = ground (arith, same_key_refl s.key, find-put_service s ts)

new_dest-IsEmptyLike :
    (s t : Service) (b : Backend) (ip : ℕ)
    → t.key ≡ s.key
    → t.ventry ≡ s.ventry
    → new_dest t b ip ≡ new_dest s b ip
unfolding new_dest
new_dest-IsEmptyLike s t b ip key ventry = ground arith

expand_dests-IsEmptyLike :
    (s t : Service) (backends : List Backend) (ds : List Destination)
    → t.key ≡ s.key
    → t.ventry ≡ s.ventry
    → expand_dests t backends ds ≡ expand_dests s backends ds
unfolding expand_dests
expand_dests-IsEmptyLike s t [] ds key ventry = refl
expand_dests-IsEmptyLike s t (b ∷ bs) ds key ventry =
    let same : (ip : ℕ) → new_dest t b ip ≡ new_dest s b ip =
      λ ip. new_dest-IsEmptyLike s t b ip key ventry in
    elim (Option-cases (backend_address b s.key.af)) [
      | inl missing ↦
          let missing' : backend_address b t.key.af ≡ none =
            ap (λ (k : ServiceKey). backend_address b k.af) key ∙ missing in
          rw (missing, missing') (expand_dests-IsEmptyLike s t bs ds key ventry)
      | inr (ip, there) ↦
          let there' : backend_address b t.key.af ≡ some ip =
            ap (λ (k : ServiceKey). backend_address b k.af) key ∙ there in
          rw (there, there', same ip)
            (expand_dests-IsEmptyLike s t bs (put_dest (new_dest s b ip) ds) key ventry)
    ]

nil_dests-stops :
    (env : Env) (g : Configured) (config : Config) (key : ServiceKey) (t : Service)
    (wanted : List Service) (d : Destination) (ds : List Destination)
    → find key g.vserver.services ≡ some t
    → t.dests ≡ []
    → has_service_key t.key g.nil_dests ≡ true
    → expand_dests t config.backends [] ≡ d ∷ ds
    → is_some (find key wanted) ≡ true
    → update_dests_under env config wanted g key ≡ none
unfolding update_dests_under add_or_update_dests add_or_update_dest add_new_dest
nil_dests-stops env g config key t wanted d ds found none_yet nil dests want =
    let missing : find_dest d.ip t.dests ≡ none = ap (find_dest d.ip) none_yet in
    let stops : add_or_update_dests env g key (d ∷ ds) ≡ none =
      rw (add_or_update_dests, add_or_update_dest, found, missing, add_new_dest, nil) refl in
    rw (update_dests_under, found, want, dests, stops) refl

nil_dests_of-add_service :
    (env : Env) (c : Configured) (config : Config) (svc : Service)
    → c.config ≡ some config
    → config.use_fwm ≡ true
    → has_service_key svc.key (add_service env c svc).nil_dests ≡ true
unfolding add_service
nil_dests_of-add_service env c config svc current fwm = ground (arith, same_key_refl svc.key)

-- Suppose that `configUpdate` of a vserver with firewall marks adds a service, as it does when the
-- vserver gets an address of its second family, and that a backend has an address of that family. Then
-- the update of the destinations of this service ends the process: it writes to a map that was never
-- made.
pub update_dests_under-add_service :
    (env : Env) (c : Configured) (config : Config) (svc : Service) (wanted : List Service)
    (d : Destination) (ds : List Destination)
    → c.config ≡ some config
    → config.use_fwm ≡ true
    → svc.dests ≡ []
    → expand_dests svc config.backends [] ≡ d ∷ ds
    → is_some (find svc.key wanted) ≡ true
    → update_dests_under env config wanted (add_service env c svc) svc.key ≡ none
unfolding add_service
update_dests_under-add_service env c config svc wanted d ds current fwm none_yet dests want =
    let v : Vserver = record c.vserver { services = put_service svc c.vserver.services } in
    let up = vserver_health env svc.vip false v.services in
    let t = (update_service up svc.vip svc).0 in
    let found : find svc.key (add_service env c svc).vserver.services ≡ some t =
      ap (find svc.key) (update_state_effect env v svc.vip).0
      ∙ find-update_service_list up svc.vip svc.key v.services svc
          (find-put_service svc c.vserver.services) in
    let like = update_service-IsEmptyLike up svc.vip svc none_yet in
    let same_dests : expand_dests t config.backends [] ≡ d ∷ ds =
      expand_dests-IsEmptyLike svc t config.backends [] like.0 like.1 ∙ dests in
    let nil : has_service_key t.key (add_service env c svc).nil_dests ≡ true =
      ap (λ k. has_service_key k (add_service env c svc).nil_dests) like.0
      ∙ nil_dests_of-add_service env c config svc current fwm in
    nil_dests-stops env (add_service env c svc) config svc.key t wanted d ds found like.2 nil
      same_dests want
