-- ===== src/Election/LeaseName.antt =====
-- `leaseName` of apis/election/coordinator.go: one Lease for each pair of token and namespace. The
-- digest is a parameter; the payload that goes into it is modelled byte by byte.
use datakit_operator.Common.{
  ℕ, ◌+◌, ◌*◌, ◌/◌, ◌%◌, ◌<◌, ◌≡◌, refl, ap, List, [], ◌∷◌, ◌++◌, String, length, arith,
}
use mathlib.Core.List.{tail}
use datakit_operator.Common.Text.{bytes, ◌⁀◌}

-- `binary.BigEndian.PutUint32` of `uint32(n)`, in front of the given bytes
abbrev put_uint32 : ℕ → List ℕ → List ℕ
put_uint32 n rest = (n / 16777216 % 256) ∷ (n / 65536 % 256) ∷ (n / 256 % 256) ∷ (n % 256) ∷ rest

unfoldable pub payload : List ℕ → List ℕ → List ℕ
payload token namespace =
    put_uint32 (length token) (token ++ put_uint32 (length namespace) namespace)

-- `sha256_hex` is the hexadecimal text of the SHA-256 digest.
unfoldable pub lease_name : (List ℕ → String) → String → String → String
unfolding payload
lease_name sha256_hex token namespace =
    "datakit-election-" ⁀ sha256_hex (payload (bytes token) (bytes namespace))

abbrev get_uint32 : List ℕ → ℕ
get_uint32 (a ∷ b ∷ c ∷ d ∷ rest) = a * 16777216 + b * 65536 + c * 256 + d
get_uint32 _ = 0

abbrev after_uint32 : List ℕ → List ℕ
after_uint32 (a ∷ b ∷ c ∷ d ∷ rest) = rest
after_uint32 _ = []

append_inj :
    (xs ys : List ℕ) {us vs : List ℕ}
    → length xs ≡ length ys
    → xs ++ us ≡ ys ++ vs
    → (xs ≡ ys) × (us ≡ vs)
append_inj [] [] n e = (refl, e)
append_inj [] (y ∷ ys) n e = absurd (omega arith)
append_inj (x ∷ xs) [] n e = absurd (omega arith)
append_inj (x ∷ xs) (y ∷ ys) n e =
    let (same, rest) = append_inj xs ys (omega arith) (ap tail e) in (cc, rest)

-- Two pairs of token and namespace with equal payloads are equal, if the tokens are shorter than
-- 2^32 bytes: no scope shares the input of the digest with another.
pub payload_inj :
    (t₁ n₁ t₂ n₂ : List ℕ)
    → length t₁ < 4294967296
    → length t₂ < 4294967296
    → payload t₁ n₁ ≡ payload t₂ n₂
    → (t₁ ≡ t₂) × (n₁ ≡ n₂)
unfolding payload
payload_inj t₁ n₁ t₂ n₂ h₁ h₂ e =
    let lengths : length t₁ ≡ length t₂ = omega (arith, ap get_uint32 e) in
    let (token, rest) = append_inj t₁ t₂ lengths (ap after_uint32 e) in
    (token, ap after_uint32 rest)
