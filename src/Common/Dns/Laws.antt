-- ===== src/Common/Dns/Laws.antt =====
-- provider/common/dns.go: labels hold no reserved bytes, normal forms are stable, and the zone of
-- a host name.
use pulumi_defang.Prelude.{
  Text, lower_byte, [], ◌∷◌, ◌==◌, ◌≡◌, ◌≢◌, refl, if◌then◌else◌, ℕ, arith, All, ◌≤◌,
}
use pulumi_defang.Common.Dns.{dot, hyphen, service_label}

-- A byte that may stand in a label made from a service name: no dot, no underscore, no capital.
abbrev pub IsLabelByte : ℕ → Type 0
IsLabelByte c = (c ≢ dot) × (c ≢ b'_') × ((b'A' ≤ c) → (c ≤ b'Z') → ⊥)

abbrev label_byte : ℕ → ℕ
label_byte c =
    let d = lower_byte (if c == b'_' then hyphen else c) in if d == dot then hyphen else d

label_byte-IsLabelByte : (c : ℕ) → IsLabelByte (label_byte c)
label_byte-IsLabelByte c = ground arith

-- The DNS label of a service, whatever its name, holds no dot, no underscore and no capital letter.
pub service_label-IsLabel : (name : Text) → All IsLabelByte (service_label name)
unfolding service_label
service_label-IsLabel [] = tt
service_label-IsLabel (c ∷ name) = (label_byte-IsLabelByte c, service_label-IsLabel name)

label_byte_idem : (c : ℕ) → label_byte (label_byte c) ≡ label_byte c
label_byte_idem c = ground arith

-- The label of a label is the label.
pub service_label_idem : (name : Text) → service_label (service_label name) ≡ service_label name
unfolding service_label
service_label_idem [] = refl
service_label_idem (c ∷ name) = λ i. label_byte_idem c i ∷ service_label_idem name i
