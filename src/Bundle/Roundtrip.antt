-- ===== src/Bundle/Roundtrip.antt =====
-- bundle.go: what `SealBundle` writes is opened again, and what was not so written is refused.
use ise2ise.Base.{◌≡◌, refl, sym, ap, ◌∙◌, ℕ, ◌≤◌, String, Bool, true, false, Option, none, some}
use ise2ise.Base.{not, ltb, nat_eq, length, if◌then◌else◌}
use ise2ise.Bytes.{take, drop, byte_at, same_bytes, same_bytes_refl}
use ise2ise.Json.{runes}
use ise2ise.Ise.Errors.{IseError, Result, ok, err}
use ise2ise.Bundle.{
  Bytes, Bundle, Aead, Library, and_then, magic, format, min_passphrase, bad_passphrase,
  with_objects, new_gcm, seal_bundle, read_plain, of_plain, open_bundle,
}
use ise2ise.Bundle.Sealed.{IsTrusted, IsSealed, opened-IsSealed}
use ise2ise.Bundle.Opened.{and_then-ok, not_short, let_through, long_enough, open_bundle-IsSealed}

-- `rand.Read` fills the whole slice.
abbrev pub Fills : ℕ → Result Bytes → Type 0
Fills n r = (bs : Bytes) → r ≡ ok bs → length bs ≡ n

unless_short :
    {A : Type 0} (b : Bool) (e : IseError) (r : Result A) (x : A)
    → (if b then err e else r) ≡ ok x
    → (b ≡ false) × (r ≡ ok x)
unless_short true e r x h = absurd (cc h)
unless_short false e r x h = (refl, h)

ok_injective : {A : Type 0} (a b : A) → ok a ≡ ok b → a ≡ b
ok_injective a b h = cc h

module _ (lib : Library) where
  seal_bundle-IsSealed :
      (b : Bundle) (passphrase : String) (salt nonce : Result Bytes) (file : Bytes)
      → Fills 16 salt
      → Fills 12 nonce
      → seal_bundle lib b passphrase salt nonce ≡ ok file
      → (plain : Bytes) × (lib.marshal b ≡ ok plain)
        × IsSealed lib passphrase file plain
        × (min_passphrase ≤ length (runes passphrase))
  unfolding seal_bundle
  seal_bundle-IsSealed b passphrase random_salt random_nonce file fills fills' e =
      let (long, e1) = unless_short (ltb (length (runes passphrase)) min_passphrase) _ _ file e in
      let (plain, marshalled, e2) = and_then-ok (lib.marshal b) _ file e1 in
      let (salt, salted, e3) = and_then-ok random_salt _ file e2 in
      let (nonce, nonced, e4) = and_then-ok random_nonce _ file e3 in
      let (gcm, keyed, e5) = and_then-ok (new_gcm lib passphrase salt) _ file e4 in
      (
        plain,
        marshalled,
        record {
          salt = salt;
          nonce = nonce;
          gcm = gcm;
          keyed = keyed;
          salt_length = fills salt salted;
          nonce_length = fills' nonce nonced;
          layout = sym (ok_injective _ file e5);
        },
        not_short _ min_passphrase long,
      )

  reads_back :
      (plain : Bytes) (b : Bundle)
      → lib.unmarshal plain ≡ ok b
      → b.tool ≡ "ise2ise"
      → read_plain lib plain ≡ ok (record b { objects = with_objects b.objects })
  unfolding read_plain
  reads_back plain b e ours = rw (e, ours) refl

-- If `SealBundle` returns a file, then its passphrase has at least 12 characters, and `OpenBundle` gives
-- with it the bundle that JSON reads back from the JSON of the one sealed, a nil map of objects made
-- empty. The bundle that is read back names the tool, AES-GCM opens what it sealed, and the random
-- bytes fill the salt and the nonce.
pub open_bundle-seal_bundle :
    (lib : Library) (b b' : Bundle) (passphrase : String) (salt nonce : Result Bytes) (file : Bytes)
    → IsTrusted lib
    → Fills 16 salt
    → Fills 12 nonce
    → ((plain : Bytes) → lib.marshal b ≡ ok plain → lib.unmarshal plain ≡ ok b')
    → b'.tool ≡ "ise2ise"
    → seal_bundle lib b passphrase salt nonce ≡ ok file
    → (min_passphrase ≤ length (runes passphrase))
      × (open_bundle lib file passphrase ≡ ok (record b' { objects = with_objects b'.objects }))
open_bundle-seal_bundle lib b b' passphrase salt nonce file trusted fills fills' back ours e =
    let (plain, marshalled, sealed, long) =
      seal_bundle-IsSealed lib b passphrase salt nonce file fills fills' e in
    (
      long,
      open_bundle-IsSealed lib trusted file passphrase plain sealed
          ∙ reads_back lib plain b' (back plain marshalled) ours,
    )

-- The key of a file and a passphrase can be derived.
abbrev pub HasKey : Library → Bytes → String → Type 0
HasKey lib file passphrase =
    (gcm : Aead) × (new_gcm lib passphrase (take 16 (drop 8 (take 36 file))) ≡ ok gcm)

-- A file that has the length of a bundle, its magic and its version, but was not sealed under the
-- passphrase, whatever the contents, is refused as "wrong passphrase, or the bundle is corrupt or was
-- tampered with", where AES-GCM opens nothing but what it sealed and a key can be derived.
pub open_bundle-bad_passphrase :
    (lib : Library) (file : Bytes) (passphrase : String)
    → IsTrusted lib
    → HasKey lib file passphrase
    → 52 ≤ length file
    → take 7 file ≡ magic
    → byte_at file 7 ≡ format
    → ((plain : Bytes) → ¬ IsSealed lib passphrase file plain)
    → open_bundle lib file passphrase ≡ err bad_passphrase
unfolding open_bundle
open_bundle-bad_passphrase lib file passphrase trusted (gcm, keyed) long starts version foreign =
    let_through _ _ _ _ _ _ _ (long_enough (length file) 52 long)
      (ap (λ m. not (same_bytes m magic)) starts ∙ ap not (same_bytes_refl magic))
      (ap (λ v. not (nat_eq v format)) version)
    ∙ (ap
          (λ r.
            and_then r
              (λ g. of_plain lib (g.unseal (drop 24 (take 36 file)) (drop 36 file) (take 36 file))))
          keyed
        ∙ of_contents (gcm.unseal (drop 24 (take 36 file)) (drop 36 file) (take 36 file)) refl)
  where
    of_contents :
        (o : Option Bytes)
        → gcm.unseal (drop 24 (take 36 file)) (drop 36 file) (take 36 file) ≡ o
        → of_plain lib o ≡ err bad_passphrase
    of_contents none e = refl
    of_contents (some plain) e = absurd (
        foreign plain
          (opened-IsSealed lib trusted file passphrase gcm plain long starts version keyed e))
