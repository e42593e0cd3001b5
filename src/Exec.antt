-- ===== src/Exec.antt =====
-- Python's methods: they change an object's state and may raise. What was written before a raise
-- stays written, so the state comes back beside an error too.
pub mod Keeps
pub mod Results
use agentic_crew.Prelude.{ℕ, String, ◌≡◌, ap}
use agentic_crew.Caps.{Refusal}

-- The exceptions that the program raises and catches: `naming_error` is a subclass of
-- `value_error`, `api_error` is a client library's, with its status, and `http_error` is the
-- `HTTPException` that a route answers with.
pub data Error : Type 0 where
  cap_exceeded : Refusal → Error
  key_error value_error naming_error type_error : String → Error
  api_error : ℕ → Error
  http_error : ℕ → String → Error

pub data Result {ℓ} (A : Type ℓ) : Type ℓ where
  ok : A → Result A
  err : Error → Result A

abbrev pub Exec {ℓ} : Type ℓ → Type ℓ → Type ℓ
Exec S A = S → Result A × S

module _ {ℓ} {S A : Type ℓ} where
  abbrev pub pure : A → Exec S A
  pure a s = (ok a, s)

  abbrev pub raise : Error → Exec S A
  raise e s = (err e, s)

  abbrev pub lift : Result A → Exec S A
  lift r s = (r, s)

  abbrev pub gets : (S → A) → Exec S A
  gets f s = (ok (f s), s)

abbrev pub modify : {S : Type 0} → (S → S) → Exec S (Unit {0})
modify f s = (ok tt, f s)

abbrev pub continue {ℓ} : {S A B : Type ℓ} → Result A × S → (A → Exec S B) → Result B × S
continue (ok a, s) f = f a s
continue (err e, s) f = (err e, s)

infixl 5 ◌>>=◌ ◌>>◌
unfoldable pub ◌>>=◌ {ℓ} : {S A B : Type ℓ} → Exec S A → (A → Exec S B) → Exec S B
◌>>=◌ m f s = continue (m s) f

abbrev pub ◌>>◌ {ℓ} : {S A B : Type ℓ} → Exec S A → Exec S B → Exec S B
m >> k = m >>= λ _. k

-- A block goes on from the value and the state of its first step, and ends with its exception.
module _ {ℓ} {S A B : Type ℓ} where
  pub bind_ok :
      (m : Exec S A) (f : A → Exec S B) (s : S) {a : A} {s' : S}
      → m s ≡ (ok a, s')
      → (m >>= f) s ≡ f a s'
  unfolding ◌>>=◌
  bind_ok m f s h = ap (λ r. continue r f) h

  pub bind_err :
      (m : Exec S A) (f : A → Exec S B) (s : S) {e : Error} {s' : S}
      → m s ≡ (err e, s')
      → (m >>= f) s ≡ (err e, s')
  unfolding ◌>>=◌
  bind_err m f s h = ap (λ r. continue r f) h
