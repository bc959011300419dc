-- ===== src/Aws/Apex/AnyOrder.antt =====
-- provider/defangaws/project.go: the apex service is the owner of the only ingress port, and does
-- not depend on the order in which the map of services is iterated.
use mathlib.Core.List.{Perm, Permᴰ}
use mathlib.Core.Logic.{∥∥₁_elim}
use native.Mathlib.Numerals.{add-one}
use pulumi_defang.Prelude.{
  Text, ℕ, zero, suc, ◌+◌, ◌==◌, List, [], ◌∷◌, if◌then◌else◌, Bool, true, false, ◌≡◌, refl, sym,
  ◌∙◌, ap, arith,
}
use pulumi_defang.Compose.Types.{ServicePortConfig, ServiceConfig, Services}
use pulumi_defang.Compose.Ports.{is_ingress}
use pulumi_defang.Aws.Sidecars.{is_managed_service}
use pulumi_defang.Aws.Apex.{Count, count_ports, count_services, apex_service_name}

-- What a set of ingress ports comes to: none, one with its owner, or several.
pub data Tally : Type 0 where
  nobody several : Tally
  sole : (owner : Text) → Tally

abbrev pub add : Tally → Tally → Tally
add nobody t = t
add (sole o) nobody = sole o
add (sole o) (sole p) = several
add (sole o) several = several
add several t = several

add_comm : (s t : Tally) → add s t ≡ add t s
add_comm nobody nobody = refl
add_comm nobody (sole p) = refl
add_comm nobody several = refl
add_comm (sole o) nobody = refl
add_comm (sole o) (sole p) = refl
add_comm (sole o) several = refl
add_comm several nobody = refl
add_comm several (sole p) = refl
add_comm several several = refl

add_assoc : (s t u : Tally) → add (add s t) u ≡ add s (add t u)
add_assoc nobody t u = refl
add_assoc (sole o) nobody u = refl
add_assoc (sole o) (sole p) nobody = refl
add_assoc (sole o) (sole p) (sole q) = refl
add_assoc (sole o) (sole p) several = refl
add_assoc (sole o) several u = refl
add_assoc several t u = refl

-- The ports of one service, and of the services that are not managed.
abbrev pub tally_ports : Text → List ServicePortConfig → Tally
tally_ports name [] = nobody
tally_ports name (p ∷ ps) = add (if is_ingress p then sole name else nobody) (tally_ports name ps)

abbrev pub tally_service : Text → ServiceConfig → Tally
tally_service name svc = if is_managed_service svc then nobody else tally_ports name svc.ports

abbrev pub tally : Services → Tally
tally [] = nobody
tally ((name, svc) ∷ services) = add (tally_service name svc) (tally services)

abbrev pub sole_owner : Tally → Text
sole_owner nobody = []
sole_owner (sole owner) = owner
sole_owner several = []

-- The loop's variables stand for a tally.
abbrev tally_of : Text → ℕ → Tally
tally_of owner zero = nobody
tally_of owner (suc zero) = sole owner
tally_of owner (suc (suc n)) = several

abbrev meaning : Count → Tally
meaning c = tally_of c.owner c.ingress_ports

meaning_next :
    (c : Count) (name : Text)
    → meaning (record { owner = name; ingress_ports = c.ingress_ports + 1 })
      ≡ add (meaning c) (sole name)
meaning_next c name = next c.owner c.ingress_ports
  where
    next : (owner : Text) (n : ℕ) → tally_of name (n + 1) ≡ add (tally_of owner n) (sole name)
    next owner zero = refl
    next owner (suc zero) = refl
    next owner (suc (suc n)) = rw add-one

port_meaning :
    (ingress : Bool) (c : Count) (name : Text)
    → meaning (if ingress then record { owner = name; ingress_ports = c.ingress_ports + 1 } else c)
      ≡ add (meaning c) (if ingress then sole name else nobody)
port_meaning true c name = meaning_next c name
port_meaning false c name = add_comm nobody (meaning c)

count_ports-tally :
    (name : Text) (ps : List ServicePortConfig) (c : Count)
    → meaning (count_ports name ps c) ≡ add (meaning c) (tally_ports name ps)
unfolding count_ports
count_ports-tally name [] c = add_comm nobody (meaning c)
count_ports-tally name (p ∷ ps) c =
    count_ports-tally name ps _
    ∙ ap (λ t. add t (tally_ports name ps)) (port_meaning (is_ingress p) c name)
    ∙ add_assoc (meaning c) (if is_ingress p then sole name else nobody) (tally_ports name ps)

service_meaning :
    (managed : Bool) (c : Count) (name : Text) (ps : List ServicePortConfig)
    → meaning (if managed then c else count_ports name ps c)
      ≡ add (meaning c) (if managed then nobody else tally_ports name ps)
service_meaning true c name ps = add_comm nobody (meaning c)
service_meaning false c name ps = count_ports-tally name ps c

count_services-tally :
    (m : Services) (c : Count) → meaning (count_services m c) ≡ add (meaning c) (tally m)
unfolding count_services
count_services-tally [] c = add_comm nobody (meaning c)
count_services-tally ((name, svc) ∷ m) c =
    count_services-tally m _
    ∙ ap (λ t. add t (tally m)) (service_meaning (is_managed_service svc) c name svc.ports)
    ∙ add_assoc (meaning c) (tally_service name svc) (tally m)

owner_of_meaning : (o : Text) (n : ℕ) → (if n == 1 then o else []) ≡ sole_owner (tally_of o n)
owner_of_meaning o zero = refl
owner_of_meaning o (suc zero) = refl
owner_of_meaning o (suc (suc n)) = ground arith

-- The apex service is the owner of the one ingress port of the services that are not managed, and
-- there is none where these have no ingress port or several.
pub apex_service_name-tally : (m : Services) → apex_service_name m ≡ sole_owner (tally m)
unfolding apex_service_name
apex_service_name-tally m =
    owner_of_meaning ((count_services m (record { owner = []; ingress_ports = 0 })).owner)
      ((count_services m (record { owner = []; ingress_ports = 0 })).ingress_ports)
    ∙ ap sole_owner (count_services-tally m (record { owner = []; ingress_ports = 0 }))

abbrev entry_tally : Text × ServiceConfig → Tally
entry_tally e = tally_service e.0 e.1

tally-perm : {m m' : Services} → Permᴰ m m' → tally m ≡ tally m'
tally-perm Permᴰ.nil = refl
tally-perm (Permᴰ.cons e p) = λ i. add (entry_tally (e i)) (tally-perm p i)
tally-perm (Permᴰ.swap {a} {b} {l} e e') =
    sym (add_assoc (entry_tally a) (entry_tally b) (tally l))
    ∙ ap (λ t. add t (tally l)) (add_comm (entry_tally a) (entry_tally b))
    ∙ add_assoc (entry_tally b) (entry_tally a) (tally l)
    ∙ (λ i. add (entry_tally (e' i)) (add (entry_tally (e i)) (tally l)))
tally-perm (Permᴰ.trans p q) = tally-perm p ∙ tally-perm q

Text-set : IsSet Text
Text-set = hlevel

-- Any two iteration orders of the services give the same apex service.
pub apex_service_name-perm :
    (m m' : Services) → Perm m m' → apex_service_name m ≡ apex_service_name m'
apex_service_name-perm m m' p = ∥∥₁_elim p (Text-set _ _) (λ q.
    apex_service_name-tally m ∙ ap sole_owner (tally-perm q) ∙ sym (apex_service_name-tally m'))
