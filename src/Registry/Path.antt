-- ===== src/Registry/Path.antt =====
-- Profiles and canonical paths: `resolve_canonical_path` and `key_spec_for_profile` of
-- crates/bloom-signer/src/derivation_registry.rs. A path is its text, a list of bytes.
use Prim.Native.Char.{code}
use Prim.Native.String.{String}
use mathlib.Core.List.{reverse}
use bloom_signer.Prelude.{
  ℕ, zero, suc, ◌+◌, ◌/◌, ◌%◌, Bool, true, false, List, [], ◌∷◌, ◌++◌, ltb, ◌==◌, if◌then◌else◌,
}
use bloom_signer.Prelude.Result.{Result, ok, err, malformed_frame}

-- A profile's name: the two that the registry knows, or another text.
pub data Profile : Type 0 where
  evm solana : Profile
  other_profile : ℕ → Profile

unfoldable pub profile_eq : Profile → Profile → Bool
profile_eq evm evm = true
profile_eq solana solana = true
profile_eq (other_profile a) (other_profile b) = a == b
profile_eq _ _ = false

pub data KeySpec : Type 0 where
  secp256k1 ed25519 : KeySpec

abbrev pub codes : String → List ℕ
codes String.[] = []
codes (String.◌∷◌ c s) = code c ∷ codes s

-- The decimal digits of a number, the lowest first. As many rounds as the number are enough.
unfoldable pub low_digits : ℕ → ℕ → List ℕ
low_digits zero n = (b'0' + n) ∷ []
low_digits (suc fuel) n =
    let rest = low_digits fuel (n / 10) in
    if ltb n 10 then (b'0' + n) ∷ [] else (b'0' + n % 10) ∷ rest

-- `{n}` in a format string.
unfoldable pub decimal : ℕ → List ℕ
unfolding low_digits
decimal n = reverse (low_digits n n)

unfoldable pub resolve_canonical_path : Profile → ℕ → ℕ → Result (List ℕ)
unfolding decimal
resolve_canonical_path evm account index =
    ok (codes "m/44'/60'/" ++ (decimal account ++ (codes "'/0/" ++ decimal index)))
resolve_canonical_path solana account index =
    ok (codes "m/44'/501'/" ++ (decimal account ++ codes "'/0'"))
resolve_canonical_path (other_profile _) account index = err malformed_frame

unfoldable pub key_spec_for_profile : Profile → Result KeySpec
key_spec_for_profile evm = ok secp256k1
key_spec_for_profile solana = ok ed25519
key_spec_for_profile (other_profile _) = err malformed_frame
