-- ===== src/RawAdv/Uuid/Equal.antt =====
-- The comparison of byte slices (src/raw_adv.rs).
use linux_bt_proxy.Prelude.{◌≡◌, ◌↔◌, refl, true, [], ◌∷◌, Bytes, arith}
use mathlib.Core.Path.{subst}
use linux_bt_proxy.RawAdv.Uuid.{bytes_eq}

equal : (xs ys : Bytes) → bytes_eq xs ys ≡ true → xs ≡ ys
unfolding bytes_eq
equal [] [] h = refl
equal [] (y ∷ ys) h = cc
equal (x ∷ xs) [] h = cc
equal (x ∷ xs) (y ∷ ys) h = ground (arith, equal xs ys)

reflexive : (xs : Bytes) → bytes_eq xs xs ≡ true
unfolding bytes_eq
reflexive [] = refl
reflexive (x ∷ xs) = ground (arith, reflexive xs)

pub bytes_eq_iff : (xs ys : Bytes) → (bytes_eq xs ys ≡ true) ↔ (xs ≡ ys)
bytes_eq_iff xs ys = (equal xs ys, λ e. subst (λ zs. bytes_eq xs zs ≡ true) e (reflexive xs))
