-- ===== src/Text/Split.antt =====
-- Splitting at a separator undoes joining with it.
use linux_bt_proxy.Prelude.{ℕ, ◌≡◌, refl, ap, false, List, [], ◌∷◌, ◌++◌, Bytes, All, ◌==◌, ==_refl}
use linux_bt_proxy.Text.{split, join}

module _ (sep : ℕ) where
  abbrev pub Lacks : Bytes → Type 0
  Lacks = All (λ c. (c == sep) ≡ false)

  split-append :
      (part rest : Bytes) → Lacks part → split sep (part ++ sep ∷ rest) ≡ part ∷ split sep rest
  unfolding split
  split-append [] rest h = rw (==_refl sep)
  split-append (c ∷ part) rest (hc, h) = rw (hc, split-append part rest h)

  split-Lacks : (part : Bytes) → Lacks part → split sep part ≡ part ∷ []
  unfolding split
  split-Lacks [] h = refl
  split-Lacks (c ∷ part) (hc, h) = rw (hc, split-Lacks part h)

  pub split-join :
      (part : Bytes) (parts : List Bytes)
      → All Lacks (part ∷ parts)
      → split sep (join (sep ∷ []) (part ∷ parts)) ≡ part ∷ parts
  unfolding join
  split-join part [] (h, _) = split-Lacks part h
  split-join part (next ∷ parts) (h, hs) =
      rw (split-append part (join (sep ∷ []) (next ∷ parts)) h)
        (ap (◌∷◌ part) (split-join next parts hs))
