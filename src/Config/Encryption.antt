-- ===== src/Config/Encryption.antt =====
-- internal/config/config.go: what EncryptSecrets and DecryptSecrets do to each secret, and what Load
-- writes.
use elnssm.Common.{
  ℕ, ◌==◌, String, str_eq_iff, List, [], ◌∷◌, Option, some, Bool, true, false, ◌||◌, ◌≡◌, ◌≢◌, refl,
  ap, sym, subst, ◌∙◌, arith, if◌then◌else◌, Bool-cases, Option-cases, inl, inr,
}
use elnssm.Config.Global.{Config}
use elnssm.Config.Secrets.{
  Dpapi, Secret, smtp, telegram, ntfy, master, slave, Pair, secret, with_secret, secrets, on_pair,
  encrypt_pair, decrypt_pair, update_secrets, encrypt_secrets, decrypt_secrets, Disk, load,
}

abbrev index : Secret → ℕ
index smtp = 0
index telegram = 1
index ntfy = 2
index master = 3
index slave = 4

same : Secret → Secret → Bool
same s t = index s == index t

secret-with_secret :
    (s t : Secret) (p : Pair) (c : Config)
    → secret t (with_secret s p c) ≡ (if same s t then p else secret t c)
unfolding same secret with_secret
secret-with_secret smtp smtp p c = refl
secret-with_secret smtp telegram p c = refl
secret-with_secret smtp ntfy p c = refl
secret-with_secret smtp master p c = refl
secret-with_secret smtp slave p c = refl
secret-with_secret telegram smtp p c = refl
secret-with_secret telegram telegram p c = refl
secret-with_secret telegram ntfy p c = refl
secret-with_secret telegram master p c = refl
secret-with_secret telegram slave p c = refl
secret-with_secret ntfy smtp p c = refl
secret-with_secret ntfy telegram p c = refl
secret-with_secret ntfy ntfy p c = refl
secret-with_secret ntfy master p c = refl
secret-with_secret ntfy slave p c = refl
secret-with_secret master smtp p c = refl
secret-with_secret master telegram p c = refl
secret-with_secret master ntfy p c = refl
secret-with_secret master master p c = refl
secret-with_secret master slave p c = refl
secret-with_secret slave smtp p c = refl
secret-with_secret slave telegram p c = refl
secret-with_secret slave ntfy p c = refl
secret-with_secret slave master p c = refl
secret-with_secret slave slave p c = refl

is_among : Secret → List Secret → Bool
is_among t [] = false
is_among t (s ∷ ss) = same s t || is_among t ss

among_all : (t : Secret) → is_among t secrets ≡ true
unfolding is_among same
among_all smtp = refl
among_all telegram = refl
among_all ntfy = refl
among_all master = refl
among_all slave = refl

same-eq : (s t : Secret) → same s t ≡ true → s ≡ t
unfolding same
same-eq smtp smtp e = refl
same-eq smtp telegram e = cc
same-eq smtp ntfy e = cc
same-eq smtp master e = cc
same-eq smtp slave e = cc
same-eq telegram smtp e = cc
same-eq telegram telegram e = refl
same-eq telegram ntfy e = cc
same-eq telegram master e = cc
same-eq telegram slave e = cc
same-eq ntfy smtp e = cc
same-eq ntfy telegram e = cc
same-eq ntfy ntfy e = refl
same-eq ntfy master e = cc
same-eq ntfy slave e = cc
same-eq master smtp e = cc
same-eq master telegram e = cc
same-eq master ntfy e = cc
same-eq master master e = refl
same-eq master slave e = cc
same-eq slave smtp e = cc
same-eq slave telegram e = cc
same-eq slave ntfy e = cc
same-eq slave master e = cc
same-eq slave slave e = refl

same-secret : (s t : Secret) (c : Config) → same s t ≡ true → secret s c ≡ secret t c
same-secret s t c e = ap (λ (u : Secret). secret u c) (same-eq s t e)

-- A run that ends without an error has changed each of its secrets by `f`, and no other.
module _ (f : Pair → Option Pair) (idem : (p q : Pair) → f p ≡ some q → f q ≡ some q) where
  Changed : List Secret → Config → Config → Secret → Type 0
  Changed ss c c' t =
      (is_among t ss ≡ true → f (secret t c) ≡ some (secret t c'))
      × (is_among t ss ≡ false → secret t c' ≡ secret t c)

  Changed-cons :
      (s : Secret) (ss : List Secret) (c c' : Config) (t : Secret) (p : Pair)
      → f (secret s c) ≡ some p
      → Changed ss (with_secret s p c) c' t
      → Changed (s ∷ ss) c c' t
  unfolding Changed is_among
  Changed-cons s ss c c' t p e rest = elim (Bool-cases (same s t)) [
    | inl h ↦
        let here : f (secret t c) ≡ some p = ap f (sym (same-secret s t c h)) ∙ e in
        let now : secret t (with_secret s p c) ≡ p = rw (secret-with_secret s t p c, h) refl in
        elim (Bool-cases (is_among t ss)) [
          | inl m ↦
              (λ a. here ∙ sym (idem (secret t c) p here) ∙ ap f (sym now) ∙ rest.0 m, λ a. cc)
          | inr m ↦ (λ a. here ∙ ap some (sym (rest.1 m ∙ now)), λ a. cc)
        ]
    | inr h ↦
        let now : secret t (with_secret s p c) ≡ secret t c =
          rw (secret-with_secret s t p c, h) refl in
        rw (h, sym now) rest
  ]

  update_secrets-Changed :
      (ss : List Secret) (c : Config) (t : Secret)
      → (update_secrets f ss c).1 ≡ true
      → Changed ss c (update_secrets f ss c).0 t
  unfolding update_secrets
  update_secrets-Changed [] c t h = unfold Changed is_among in (λ e. cc, λ e. refl)
  update_secrets-Changed (s ∷ ss) c t h = elim (Option-cases (f (secret s c))) [
    | inl e ↦
        let stopped : false ≡ true =
          subst (λ o. (on_pair (λ p. update_secrets f ss (with_secret s p c)) c o).1 ≡ true) e h in
        cc
    | inr (p, e) ↦
        subst
          (λ o. Changed (s ∷ ss) c (on_pair (λ p. update_secrets f ss (with_secret s p c)) c o).0 t)
          (sym e)
          (Changed-cons s ss c (update_secrets f ss (with_secret s p c)).0 t p e (
            update_secrets-Changed ss (with_secret s p c) t (
              subst (λ o. (on_pair (λ p. update_secrets f ss (with_secret s p c)) c o).1 ≡ true) e
                h)))
  ]

  pub each_secret :
      (c : Config) (t : Secret)
      → (update_secrets f secrets c).1 ≡ true
      → f (secret t c) ≡ some (secret t (update_secrets f secrets c).0)
  unfolding Changed
  each_secret c t h = (update_secrets-Changed secrets c t h).0 (among_all t)

module _ (k : Dpapi) where
  encrypt_pair_idem : (p q : Pair) → encrypt_pair k p ≡ some q → encrypt_pair k q ≡ some q
  encrypt_pair_idem (p, x) (q, y) h = ground (arith, h, str_eq_iff q "")

  decrypt_pair_idem : (p q : Pair) → decrypt_pair k p ≡ some q → decrypt_pair k q ≡ some q
  decrypt_pair_idem (p, x) (q, y) h = ground (arith, h, str_eq_iff q "", str_eq_iff p "")

  encrypt_pair_plain : (p q : Pair) → encrypt_pair k p ≡ some q → q.0 ≡ ""
  encrypt_pair_plain p q h = ground (arith, h, str_eq_iff p.0 "")

  -- What DPAPI makes of a text that is not empty is not empty, and decrypts to what it was.
  pub record IsDpapi : Type 0 where
    pub encrypt_some : (plain x : String) → plain ≢ "" → k.encrypt plain ≡ some x → x ≢ ""
    pub decrypt-encrypt : (plain x : String) → k.encrypt plain ≡ some x → k.decrypt x ≡ some plain

  there_and_back :
      (p q r : Pair)
      → IsDpapi
      → encrypt_pair k p ≡ some q
      → decrypt_pair k q ≡ some r
      → p.0 ≢ ""
      → r.0 ≡ p.0
  there_and_back (p, x) (q, y) (r, z) ok e d filled = ground (
    arith,
    e,
    d,
    filled,
    str_eq_iff p "",
    str_eq_iff q "",
    str_eq_iff y "",
    ok.encrypt_some p y,
    ok.decrypt-encrypt p y,
  )

  -- After EncryptSecrets and DecryptSecrets, when both end without an error, each secret that was
  -- set in plain text is in memory as it was.
  pub decrypt_secrets-encrypt_secrets :
      (c : Config) (t : Secret)
      → IsDpapi
      → (encrypt_secrets k c).1 ≡ true
      → (decrypt_secrets k (encrypt_secrets k c).0).1 ≡ true
      → (secret t c).0 ≢ ""
      → (secret t (decrypt_secrets k (encrypt_secrets k c).0).0).0 ≡ (secret t c).0
  unfolding encrypt_secrets decrypt_secrets
  decrypt_secrets-encrypt_secrets c t ok e d filled =
      let c1 = (update_secrets (encrypt_pair k) secrets c).0 in
      let c2 = (update_secrets (decrypt_pair k) secrets c1).0 in
      there_and_back (secret t c) (secret t c1) (secret t c2) ok
        (each_secret (encrypt_pair k) encrypt_pair_idem c t e)
        (each_secret (decrypt_pair k) decrypt_pair_idem c1 t d) filled

  encrypted_plain :
      (c : Config) (t : Secret)
      → (encrypt_secrets k c).1 ≡ true
      → (secret t (encrypt_secrets k c).0).0 ≡ ""
  unfolding encrypt_secrets
  encrypted_plain c t e =
      encrypt_pair_plain (secret t c) (secret t (update_secrets (encrypt_pair k) secrets c).0)
        (each_secret (encrypt_pair k) encrypt_pair_idem c t e)

  -- Load writes the file only with all five secrets encrypted: none of them is there in plain text,
  -- whatever the file held before, and also when an encryption failed.
  pub load-written :
      (parse_ip : String → Bool) (path : String) (disk : Disk) (w : Config) (t : Secret)
      → (load k parse_ip path disk).written ≡ some w
      → (secret t w).0 ≡ ""
  unfolding load
  load-written parse_ip path disk w t h = elim (Option-cases disk.decoded) [
    | inl e ↦ ground (arith, h, e)
    | inr (d, e) ↦ ground (arith, h, e, encrypted_plain (record d { file_path = path }) t)
  ]
