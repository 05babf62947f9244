-- ===== src/Process/Credential.antt =====
-- internal/process/credential.go. encoding/base64, and CryptProtectData and CryptUnprotectData, which
-- give none where they fail, are arguments, as are the bytes of a text.
use elnssm.Common.{
  ℕ, ◌<◌, ◌^◌, ltb, String, str_eq, str_eq_iff, Option, none, some, List, [], length, false, ◌≡◌,
  refl, sym, subst, ◌∙◌, arith, if◌then◌else◌, ◌≢◌,
}
use mathlib.Core.Option as Option

abbrev pub Bytes : Type 0
Bytes = List ℕ

pub record Crypt : Type 0 where
  pub bytes : String → Bytes
  pub text : Bytes → String
  pub encode : Bytes → String
  pub decode : String → Option Bytes
  pub protect : Bytes → Option Bytes
  pub unprotect : Bytes → Option Bytes

-- newDataBlob, as the bytes that the blob refers to: none of them where there are too many.
abbrev pub new_data_blob : Bytes → Bytes
new_data_blob input = if ltb 4294967295 (length input) then [] else input

unfoldable pub encrypt_password : Crypt → String → Option String
encrypt_password c plaintext =
    if str_eq plaintext ""
    then some ""
    else Option.map c.encode (c.protect (new_data_blob (c.bytes plaintext)))

abbrev decrypt_data : Crypt → Option Bytes → Option String
decrypt_data c none = none
decrypt_data c (some input) = Option.map c.text (c.unprotect (new_data_blob input))

unfoldable pub decrypt_password : Crypt → String → Option String
decrypt_password c encrypted =
    if str_eq encrypted "" then some "" else decrypt_data c (c.decode encrypted)

-- What the code relies on: base64 loses nothing and is empty for no bytes only, and what is protected
-- on a machine is a few KB, not empty, and can be unprotected there.
pub record IsCrypt (c : Crypt) : Type 0 where
  pub text_bytes : (s : String) → c.text (c.bytes s) ≡ s
  pub decode_encode : (b : Bytes) → c.decode (c.encode b) ≡ some b
  pub encode_empty : (b : Bytes) → c.encode b ≡ "" → b ≡ []
  pub protected : (b p : Bytes) → c.protect b ≡ some p → c.unprotect p ≡ some b
  pub protected_size : (b p : Bytes) → c.protect b ≡ some p → (p ≢ []) × (length p < 2 ^ 32)

blob_lem : (b : Bytes) → length b < 2 ^ 32 → new_data_blob b ≡ b
blob_lem b h = ground (arith, h)

module _ (c : Crypt) (law : IsCrypt c) where
  encoded_filled : (b p : Bytes) → c.protect b ≡ some p → str_eq (c.encode p) "" ≡ false
  encoded_filled b p e =
      let (filled, _) = law.protected_size b p e in
      ground (arith, str_eq_iff (c.encode p) "", law.encode_empty p, filled)

  decrypt_protected :
      (b p : Bytes) → c.protect b ≡ some p → decrypt_password c (c.encode p) ≡ some (c.text b)
  unfolding decrypt_password
  decrypt_protected b p e =
      let (_, size) = law.protected_size b p e in
      rw (encoded_filled b p e, law.decode_encode p, blob_lem p size, law.protected b p e) refl

  encrypted_protected :
      (b : Bytes) (o : Option Bytes) (encrypted : String)
      → c.protect b ≡ o
      → Option.map c.encode o ≡ some encrypted
      → (encrypted ≢ "") × (decrypt_password c encrypted ≡ some (c.text b))
  encrypted_protected b none encrypted e h = absurd (ground (arith, h))
  encrypted_protected b (some p) encrypted e h =
      let same : c.encode p ≡ encrypted = ground (arith, h) in
      subst (λ x. (x ≢ "") × (decrypt_password c x ≡ some (c.text b))) same
        (
          λ z. ground (arith, z, str_eq_iff (c.encode p) "", encoded_filled b p e),
          decrypt_protected b p e,
        )

  -- What EncryptPassword makes of a password that is not empty and has under 4 GB is not empty,
  -- and DecryptPassword gives the password back from it.
  pub decrypt_password-encrypt_password :
      (plaintext encrypted : String)
      → plaintext ≢ ""
      → length (c.bytes plaintext) < 2 ^ 32
      → encrypt_password c plaintext ≡ some encrypted
      → (encrypted ≢ "") × (decrypt_password c encrypted ≡ some plaintext)
  unfolding encrypt_password
  decrypt_password-encrypt_password plaintext encrypted filled small e =
      let b = c.bytes plaintext in
      let given : str_eq plaintext "" ≡ false = ground (arith, filled, str_eq_iff plaintext "") in
      let sent : Option.map c.encode (c.protect b) ≡ some encrypted =
        sym (rw (given, blob_lem b small) refl) ∙ e in
      rw (sym (law.text_bytes plaintext)) (encrypted_protected b (c.protect b) encrypted refl sent)
