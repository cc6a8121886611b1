-- ===== src/Bundle/Opened.antt =====
-- bundle.go: which files `OpenBundle` accepts, and what `SealBundle` writes.
use ise2ise.Base.{
  ◌≡◌, refl, sym, ap, ◌∙◌, ℕ, ◌≤◌, ◌↔◌, String, Bool, true, false, Option, none, some,
}
use ise2ise.Base.{◌++◌, not, ltb, nat_eq, length, length-append, arith, if◌then◌else◌}
use ise2ise.Bytes.{
  take, drop, byte_at, same_bytes, take-append, drop-append, nat_eq-equal, same_bytes-equal,
  same_bytes_refl,
}
use ise2ise.Ise.Errors.{IseError, Result, ok, err}
use ise2ise.Bundle.{
  Bytes, Bundle, Aead, Library, and_then, magic, format, header_of, new_gcm, read_plain, of_plain,
  open_bundle,
}
use ise2ise.Bundle.Sealed.{IsGcm, IsTrusted, IsSealed, opened-IsSealed, new_gcm-IsGcm}

pub and_then-ok :
    {A B : Type 0} (r : Result A) (k : A → Result B) (b : B)
    → and_then r k ≡ ok b
    → (a : A) × (r ≡ ok a) × (k a ≡ ok b)
and_then-ok (ok a) k b e = (a, refl, e)
and_then-ok (err x) k b e = absurd (cc e)

-- Three guards that return an error, and what follows them.
passed :
    {A : Type 0} (a b c : Bool) (e e' e'' : IseError) (r : Result A) (x : A)
    → (if a then err e else if b then err e' else if c then err e'' else r) ≡ ok x
    → (a ≡ false) × (b ≡ false) × (c ≡ false) × (r ≡ ok x)
passed true b c e e' e'' r x h = absurd (cc h)
passed false true c e e' e'' r x h = absurd (cc h)
passed false false true e e' e'' r x h = absurd (cc h)
passed false false false e e' e'' r x h = (refl, refl, refl, h)

not-false : (b : Bool) → not b ≡ false → b ≡ true
not-false true h = refl
not-false false h = absurd (cc h)

pub not_short : (n m : ℕ) → ltb n m ≡ false → m ≤ n
not_short n m h = ground arith

pub long_enough : (n m : ℕ) → m ≤ n → ltb n m ≡ false
long_enough n m h = ground arith

of_plain-ok :
    (lib : Library) (o : Option Bytes) (b : Bundle)
    → of_plain lib o ≡ ok b
    → (plain : Bytes) × (o ≡ some plain) × (read_plain lib plain ≡ ok b)
of_plain-ok lib none b e = absurd (cc e)
of_plain-ok lib (some plain) b e = (plain, refl, e)

-- Sealed contents that read as a bundle.
abbrev pub Contains : Library → String → Bytes → Bundle → Type 0
Contains lib passphrase file b =
    (plain : Bytes) × IsSealed lib passphrase file plain × (read_plain lib plain ≡ ok b)

pub let_through :
    {A : Type 0} (a b c : Bool) (e e' e'' : IseError) (r : Result A)
    → a ≡ false
    → b ≡ false
    → c ≡ false
    → (if a then err e else if b then err e' else if c then err e'' else r) ≡ r
let_through a b c e e' e'' r ha hb hc = rw (ha, hb, hc) refl

-- By the slices that the code takes.
accepted :
    (lib : Library) (file : Bytes) (passphrase : String) (header salt nonce sealed plain : Bytes)
    (gcm : Aead)
    → 52 ≤ length file
    → take 7 file ≡ magic
    → byte_at file 7 ≡ format
    → take 36 file ≡ header
    → drop 36 file ≡ sealed
    → take 16 (drop 8 header) ≡ salt
    → drop 24 header ≡ nonce
    → new_gcm lib passphrase salt ≡ ok gcm
    → gcm.unseal nonce sealed header ≡ some plain
    → open_bundle lib file passphrase ≡ read_plain lib plain
unfolding open_bundle
accepted lib file passphrase header salt nonce sealed plain gcm long starts version head body slice
      slice' keyed unsealed =
    let_through _ _ _ _ _ _ _ (long_enough (length file) 52 long)
      (ap (λ m. not (same_bytes m magic)) starts ∙ ap not (same_bytes_refl magic))
      (ap (λ v. not (nat_eq v format)) version)
    ∙ (ap
          (λ r.
            and_then r
              (λ g. of_plain lib (g.unseal (drop 24 (take 36 file)) (drop 36 file) (take 36 file))))
          (ap (λ h. new_gcm lib passphrase (take 16 (drop 8 h))) head
            ∙ (ap (new_gcm lib passphrase) slice ∙ keyed))
        ∙ ap (of_plain lib) (
            ap (λ h. gcm.unseal (drop 24 h) (drop 36 file) h) head
            ∙ (ap (λ c. gcm.unseal (drop 24 header) c header) body
                ∙ (ap (λ n. gcm.unseal n sealed header) slice' ∙ unsealed))))

module _ (lib : Library) (trusted : IsTrusted lib) where
  opened :
      (file : Bytes) (passphrase : String) (b : Bundle)
      → open_bundle lib file passphrase ≡ ok b
      → Contains lib passphrase file b
  unfolding open_bundle
  opened file passphrase b e =
      let (long, starts, version, rest) = passed _ _ _ _ _ _ _ b e in
      let (gcm, keyed, unsealed) =
        and_then-ok (new_gcm lib passphrase (take 16 (drop 8 (take 36 file)))) _ b rest in
      let (plain, found, reads) =
        of_plain-ok lib (gcm.unseal (drop 24 (take 36 file)) (drop 36 file) (take 36 file)) b
          unsealed in
      (
        plain,
        opened-IsSealed lib trusted file passphrase gcm plain (not_short _ 52 long)
            (same_bytes-equal _ magic (not-false _ starts))
            (nat_eq-equal _ format (not-false _ version)) keyed found,
        reads,
      )

  -- A sealed file is opened.
  pub open_bundle-IsSealed :
      (file : Bytes) (passphrase : String) (plain : Bytes)
      → IsSealed lib passphrase file plain
      → open_bundle lib file passphrase ≡ read_plain lib plain
  unfolding take drop byte_at
  open_bundle-IsSealed file passphrase plain s =
      accepted lib file passphrase header salt nonce sealed plain s.gcm long (ap (take 7) s.layout)
        (ap (λ f. byte_at f 7) s.layout)
        (ap (take 36) s.layout
          ∙ (ap (λ n. take n (header ++ sealed)) (sym width) ∙ take-append header sealed))
        (ap (drop 36) s.layout
          ∙ (ap (λ n. drop n (header ++ sealed)) (sym width) ∙ drop-append header sealed))
        (ap (λ n. take n (salt ++ nonce)) (sym s.salt_length) ∙ take-append salt nonce)
        (ap (λ n. drop n (salt ++ nonce)) (sym s.salt_length) ∙ drop-append salt nonce) s.keyed
        (gcm_laws.restores nonce plain header)
    where
      salt : Bytes
      salt = s.salt

      nonce : Bytes
      nonce = s.nonce

      header : Bytes
      header = header_of salt nonce

      sealed : Bytes
      sealed = s.gcm.seal nonce plain header

      gcm_laws : IsGcm s.gcm
      gcm_laws = new_gcm-IsGcm lib passphrase salt s.gcm trusted s.keyed

      width : length header ≡ 36
      width = omega (arith, length-append salt nonce, s.salt_length, s.nonce_length)

      long : 52 ≤ length file
      long = omega (
        arith,
        ap length s.layout,
        length-append header sealed,
        width,
        gcm_laws.overhead nonce plain header,
      )

-- `OpenBundle` returns a bundle exactly for the files that are sealed under the passphrase, header
-- and all, and then the one that their plaintext reads as, if AES-GCM opens what it sealed and
-- nothing else and makes it 16 bytes longer.
pub open_bundle-Contains :
    (lib : Library) (file : Bytes) (passphrase : String) (b : Bundle)
    → IsTrusted lib
    → (open_bundle lib file passphrase ≡ ok b) ↔ Contains lib passphrase file b
open_bundle-Contains lib file passphrase b trusted = (
  opened lib trusted file passphrase b,
  λ (plain, sealed, reads). open_bundle-IsSealed lib trusted file passphrase plain sealed ∙ reads,
)
