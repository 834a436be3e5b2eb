-- ===== src/Api/Runtime/Sizes.antt =====
-- The length of what a message's fields append is the sum of their sizes.
use linux_bt_proxy.Prelude.{
  ℕ, ◌≡◌, refl, ◌∙◌, Bool, true, false, List, [], ◌∷◌, Bytes, length, length-append, All, ◌%◌, ◌^◌,
  ◌≤◌, ◌<◌, arith,
}
use linux_bt_proxy.Api.Runtime.{
  Protobuf, when, emit, total, emit_all, message_field, near_size, far_size,
}
use native.Mathlib.Nat.{mod-eq_of_lt}

pub length-emit :
    (test : Bool) (bytes : Bytes) → length (emit test bytes) ≡ when test (length bytes)
length-emit true bytes = refl
length-emit false bytes = refl

pub length-emit_all {ℓ} :
    {A : Type ℓ} (write : A → Bytes) (size : A → ℕ) (xs : List A)
    → All (λ x. length (write x) ≡ size x) xs
    → length (emit_all write xs) ≡ total size xs
length-emit_all write size [] h = refl
length-emit_all write size (x ∷ xs) (hx, h) =
    omega (arith, hx, length-emit_all write size xs h, length-append (write x) (emit_all write xs))

pub All-pointwise {ℓ κ} : {A : Type ℓ} (P : A → Type κ) (xs : List A) → ((x : A) → P x) → All P xs
All-pointwise P [] h = tt
All-pointwise P (x ∷ xs) h = (h x, All-pointwise P xs h)

pub All-map {ℓ κ μ} :
    {A : Type ℓ} (P : A → Type κ) (Q : A → Type μ) (xs : List A)
    → ((x : A) → P x → Q x)
    → All P xs
    → All Q xs
All-map P Q [] f h = tt
All-map P Q (x ∷ xs) f (hx, h) = (f x hx, All-map P Q xs f h)

module _ (rt : Protobuf) {M : Type 0} (field : ℕ) (size : M → ℕ) (write : M → Bytes) where
  length-header_near :
      (v : M)
      → field < 16
      → length (write v) ≡ size v
      → size v < 2 ^ 32
      → length (message_field rt field size write v) ≡ near_size rt size v
  length-header_near v near exact fits =
      length-append (rt.message_header field (size v % 2 ^ 32)) (write v)
      ∙ rw (mod-eq_of_lt fits, rt.length-header_near field (size v) near, exact) refl

  length-header_far :
      (v : M)
      → 16 ≤ field
      → field < 2048
      → length (write v) ≡ size v
      → size v < 2 ^ 32
      → length (message_field rt field size write v) ≡ far_size rt size v
  length-header_far v far most exact fits =
      length-append (rt.message_header field (size v % 2 ^ 32)) (write v)
      ∙ rw (mod-eq_of_lt fits, rt.length-header_far field (size v) far most, exact) refl

  -- Repeated message fields, of a number below 16 and of a larger one.
  pub length-near :
      field < 16
      → (xs : List M) → ((v : M) → length (write v) ≡ size v)
      → All (λ v. size v < 2 ^ 32) xs
      → length (emit_all (message_field rt field size write) xs) ≡ total (near_size rt size) xs
  length-near near xs exact fits =
      length-emit_all (message_field rt field size write) (near_size rt size) xs (
        All-map (λ v. size v < 2 ^ 32)
          (λ v. length (message_field rt field size write v) ≡ near_size rt size v) xs
          (λ v small. length-header_near v near (exact v) small) fits)

  pub length-far :
      16 ≤ field
      → field < 2048
      → (xs : List M) → ((v : M) → length (write v) ≡ size v)
      → All (λ v. size v < 2 ^ 32) xs
      → length (emit_all (message_field rt field size write) xs) ≡ total (far_size rt size) xs
  length-far far most xs exact fits =
      length-emit_all (message_field rt field size write) (far_size rt size) xs (
        All-map (λ v. size v < 2 ^ 32)
          (λ v. length (message_field rt field size write v) ≡ far_size rt size v) xs
          (λ v small. length-header_far v far most (exact v) small) fits)
