-- ===== src/ExternalIp/Format.antt =====
-- What `isValidIP` accepts.
use system_monitor_go.Base.{
  ◌≤◌, ◌≡◌, refl, sym, ap, ◌∙◌, ◌↔◌, true, List, [], ◌∷◌, ◌++◌, arith, Text, length, all, All,
  split, split-joined, rejoined-split, rejoined, Lacks, byte_length, is_digit,
}
use system_monitor_go.ExternalIp.{valid_part, is_valid_ip}

-- One to three decimal digits.
abbrev pub IsGroup : Text → Type 0
IsGroup p = (1 ≤ length p) × (length p ≤ 3) × All (λ c. (b'0' ≤ c) × (c ≤ b'9')) p

-- Four groups with a dot between each two.
abbrev pub DottedQuad : Text → Type 0
DottedQuad ip =
    (p q r s : Text) × IsGroup p
    × IsGroup q
    × IsGroup r
    × IsGroup s
    × (ip ≡ p ++ b'.' ∷ (q ++ b'.' ∷ (r ++ b'.' ∷ s)))

all-digits : (p : Text) → all is_digit p ≡ true → All (λ c. (b'0' ≤ c) × (c ≤ b'9')) p
all-digits [] h = tt
all-digits (c ∷ p) h = ground (arith, all-digits p)

digits-all : (p : Text) → All (λ c. (b'0' ≤ c) × (c ≤ b'9')) p → all is_digit p ≡ true
digits-all [] h = refl
digits-all (c ∷ p) h = ground (arith, digits-all p h.1)

digits-Lacks : (p : Text) → All (λ c. (b'0' ≤ c) × (c ≤ b'9')) p → Lacks b'.' p
digits-Lacks [] h = tt
digits-Lacks (c ∷ p) h = (omega arith, digits-Lacks p h.1)

byte_length-digits : (p : Text) → All (λ c. (b'0' ≤ c) × (c ≤ b'9')) p → byte_length p ≡ length p
unfolding byte_length
byte_length-digits [] h = refl
byte_length-digits (c ∷ p) h = ground (arith, byte_length-digits p h.1)

valid_part-IsGroup : (p : Text) → valid_part p ≡ true → IsGroup p
unfolding valid_part
valid_part-IsGroup p h = ground (arith, all-digits p, byte_length-digits p)

IsGroup-valid_part : (p : Text) → IsGroup p → valid_part p ≡ true
unfolding valid_part
IsGroup-valid_part p h = ground (arith, digits-all p, byte_length-digits p)

-- The parts that the test accepts are four groups.
parts-IsGroup :
    (p q r s : Text)
    → all valid_part (p ∷ q ∷ r ∷ s ∷ []) ≡ true
    → IsGroup p × IsGroup q × IsGroup r × IsGroup s
parts-IsGroup p q r s v = (
  valid_part-IsGroup p (ground arith),
  valid_part-IsGroup q (ground arith),
  valid_part-IsGroup r (ground arith),
  valid_part-IsGroup s (ground arith),
)

quad_of_parts :
    (ip : Text) (parts : List Text)
    → rejoined b'.' parts ≡ ip
    → length parts ≡ 4
    → all valid_part parts ≡ true
    → DottedQuad ip
quad_of_parts ip [] e n v = absurd (omega arith)
quad_of_parts ip (p ∷ []) e n v = absurd (omega arith)
quad_of_parts ip (p ∷ q ∷ []) e n v = absurd (omega arith)
quad_of_parts ip (p ∷ q ∷ r ∷ []) e n v = absurd (omega arith)
quad_of_parts ip (p ∷ q ∷ r ∷ s ∷ []) e n v =
    let (a, b, c, d) = parts-IsGroup p q r s v in (p, q, r, s, a, b, c, d, sym e)
quad_of_parts ip (p ∷ q ∷ r ∷ s ∷ t ∷ ps) e n v = absurd (omega arith)

is_valid_ip_parts :
    (ip : Text)
    → is_valid_ip ip ≡ true
    → (length (split ip b'.') ≡ 4) × (all valid_part (split ip b'.') ≡ true)
unfolding is_valid_ip
is_valid_ip_parts ip h = ground arith

quad-Lacks :
    (p q r s : Text)
    → IsGroup p
    → IsGroup q
    → IsGroup r
    → IsGroup s
    → All (Lacks b'.') (p ∷ q ∷ r ∷ s ∷ [])
quad-Lacks p q r s a b c d =
    (digits-Lacks p a.2, (digits-Lacks q b.2, (digits-Lacks r c.2, (digits-Lacks s d.2, tt))))

is_valid_of_parts :
    (ip : Text) (parts : List Text)
    → split ip b'.' ≡ parts
    → length parts ≡ 4
    → all valid_part parts ≡ true
    → is_valid_ip ip ≡ true
unfolding is_valid_ip
is_valid_of_parts ip parts e n v = rw (e, n) v

DottedQuad-is_valid_ip : (ip : Text) → DottedQuad ip → is_valid_ip ip ≡ true
DottedQuad-is_valid_ip ip (p, q, r, s, a, b, c, d, e) =
    is_valid_of_parts ip (p ∷ q ∷ r ∷ s ∷ [])
      (ap (λ t. split t b'.') e ∙ split-joined b'.' p (q ∷ r ∷ s ∷ []) (quad-Lacks p q r s a b c d))
      refl
      (rw (
        IsGroup-valid_part p a,
        IsGroup-valid_part q b,
        IsGroup-valid_part r c,
        IsGroup-valid_part s d,
      ))

-- The test accepts exactly the texts of four groups of one to three digits with dots between them;
-- the value of a group is not looked at.
pub is_valid_ip_iff : (ip : Text) → (is_valid_ip ip ≡ true) ↔ DottedQuad ip
is_valid_ip_iff ip = (
  λ h.
      let parts = is_valid_ip_parts ip h in
      quad_of_parts ip (split ip b'.') (rejoined-split ip b'.') parts.0 parts.1,
  DottedQuad-is_valid_ip ip,
)
