-- ===== src/Tests/Bundle.antt =====
-- A cipher that puts sixteen zeros before the plaintext, and files sealed and not sealed with it.
use ise2ise.Base.{
  ◌≡◌, ◌↔◌, refl, sym, ap, ◌∙◌, ℕ, zero, suc, ◌≤◌, Bool, true, false, Option, none, some,
}
use ise2ise.Base.{subst, [], ◌∷◌, ◌++◌, length, arith}
use ise2ise.Json.{runes}
use ise2ise.Bytes.{take, drop, same_bytes, take-drop, same_bytes-equal}
use ise2ise.Ise.Errors.{ok, err}
use ise2ise.Bundle.{
  Bytes, Bundle, Aead, Library, header_of, bad_passphrase, min_passphrase, with_objects,
  seal_bundle, open_bundle, read_plain, new_gcm, new_bundle,
}
use ise2ise.Bundle.Sealed.{IsGcm, IsTrusted, IsSealed}
use ise2ise.Bundle.Opened.{Contains, open_bundle-Contains, open_bundle-IsSealed}
use ise2ise.Bundle.Roundtrip.{Fills, open_bundle-seal_bundle, open_bundle-bad_passphrase}

abbrev times : ℕ → ℕ → Bytes
times zero b = []
times (suc n) b = b ∷ times n b

abbrev zeros : Bytes
zeros = times 16 0

abbrev unpadded : Bool → Bytes → Option Bytes
unpadded true c = some (drop 16 c)
unpadded false c = none

abbrev padding : Aead
padding = record {
  seal = λ n p a. zeros ++ p;
  unseal = λ n c a. unpadded (same_bytes (take 16 c) zeros) c;
}

padding-IsGcm : IsGcm padding
unfolding take drop same_bytes
padding-IsGcm = record {
  restores = λ n p a. refl;
  authentic = λ n c a p e. of_test (same_bytes (take 16 c) zeros) c p refl e;
  overhead = λ n p a. omega arith;
}
  where
    of_test :
        (b : Bool) (c p : Bytes)
        → same_bytes (take 16 c) zeros ≡ b
        → unpadded b c ≡ some p
        → c ≡ zeros ++ p
    of_test true c p same e =
        sym (take-drop 16 c)
        ∙ (ap (λ xs. xs ++ drop 16 c) (same_bytes-equal _ zeros same) ∙ ap (zeros ++◌) (cc e))
    of_test false c p same e = absurd (cc e)

-- A bundle without objects, as JSON may give it back.
abbrev sample : Bundle
sample = record (new_bundle "" none) { objects = none }

abbrev library : Library
library = record {
  derive_key = λ passphrase salt. ok salt;
  new_aead = λ key. ok padding;
  marshal = λ b. ok (7 ∷ []);
  unmarshal = λ plain. ok sample;
}

trusted : IsTrusted library
trusted key gcm e = subst IsGcm (cc e) padding-IsGcm

abbrev salt : Bytes
salt = times 16 5

abbrev nonce : Bytes
nonce = times 12 6

abbrev sealed : Bytes
sealed = header_of salt nonce ++ (zeros ++ (7 ∷ []))

open_bundle-Contains_example :
    (open_bundle library sealed "correct horse" ≡ ok (record sample { objects = some [] }))
    ↔ Contains library "correct horse" sealed (record sample { objects = some [] })
open_bundle-Contains_example =
    open_bundle-Contains library sealed "correct horse" (record sample { objects = some [] })
      trusted

fills : (bs : Bytes) → Fills (length bs) (ok bs)
fills bs cs e = ap length (of_ok cs e)
  where
    of_ok : (xs : Bytes) → ok bs ≡ ok xs → xs ≡ bs
    of_ok xs e = cc e

open_bundle-seal_bundle_example :
    (min_passphrase ≤ length (runes "correct horse"))
    × (open_bundle library sealed "correct horse"
        ≡ ok (record sample { objects = with_objects none }))
unfolding seal_bundle
open_bundle-seal_bundle_example =
    open_bundle-seal_bundle library sample sample "correct horse" (ok salt) (ok nonce) sealed
      trusted (fills salt) (fills nonce) (λ plain e. refl) refl refl

abbrev foreign : Bytes
foreign = header_of salt nonce ++ times 16 9

foreign_lem : open_bundle library foreign "correct horse" ≡ err bad_passphrase
unfolding open_bundle
foreign_lem = refl

foreign-IsSealed : (plain : Bytes) → ¬ IsSealed library "correct horse" foreign plain
unfolding read_plain
foreign-IsSealed plain s =
    absurd
      (cc (sym foreign_lem ∙ open_bundle-IsSealed library trusted foreign "correct horse" plain s))

open_bundle-bad_passphrase_example :
    open_bundle library foreign "correct horse" ≡ err bad_passphrase
unfolding take drop new_gcm ise2ise.Bytes.byte_at
open_bundle-bad_passphrase_example =
    open_bundle-bad_passphrase library foreign "correct horse" trusted (padding, refl) (omega arith)
      refl refl foreign-IsSealed
