-- ===== src/Start/Lookup.antt =====
-- The retries of the adapter's MAC in src/main.rs.
use linux_bt_proxy.Prelude.{
  ℕ, zero, suc, ◌+◌, ◌*◌, ◌-◌, ◌<◌, ◌≤◌, ◌≡◌, refl, ap, ◌∙◌, Option, none, some, Option-cases, inl,
  inr, Bytes, true, ltb, arith,
}
use linux_bt_proxy.Ble.{get_adapter_mac}
use linux_bt_proxy.Start.{Looked, bt_mac, exits, mac_lookup_attempts, lookup_loop, lookup_mac}

module _ (hci : ℕ) (address : ℕ → Bytes → Option Bytes) where
  abbrev pub answers : ℕ → Option Bytes
  answers attempt = get_adapter_mac (address attempt) hci

  -- The first of the attempts from `attempt` on, `left` of them, that gives a MAC.
  abbrev pub first : ℕ → ℕ → Option (ℕ × Bytes)
  first zero attempt = none
  first (suc left) attempt =
      let later = first left (attempt + 1) in
      elim (answers attempt) [ some mac ↦ some (attempt, mac) | none ↦ later ]

  -- How the loop ends for it, when it is at `attempt`.
  abbrev pub ending : ℕ → Option (ℕ × Bytes) → Looked × ℕ
  ending attempt none = (exits, 2 * (mac_lookup_attempts - attempt))
  ending attempt (some (k, mac)) = (bt_mac mac, 2 * (k - attempt))

  first-later :
      (left attempt k : ℕ) (mac : Bytes) → first left attempt ≡ some (k, mac) → attempt ≤ k
  first-later zero attempt k mac e = cc
  first-later (suc left) attempt k mac e = elim (Option-cases (answers attempt)) [
    | inl none_now ↦ omega (arith, first-later left (attempt + 1) k mac (rw (first, none_now) at e))
    | inr (m, now) ↦
        let q : (let o : Option (ℕ × Bytes) = some (attempt, m) in o) ≡ some (k, mac) =
          rw (first, now) at e in
        omega (arith, let r : attempt ≡ k = cc in r)
  ]

  zero_slept : (attempt : ℕ) (mac : Bytes) → (bt_mac mac, 0) ≡ ending attempt (some (attempt, mac))
  zero_slept attempt mac = ap (λ n. (bt_mac mac, n)) (omega arith)

  slept_more :
      (attempt : ℕ) (found : Option (ℕ × Bytes))
      → attempt < mac_lookup_attempts
      → ((k : ℕ) (mac : Bytes) → found ≡ some (k, mac) → attempt + 1 ≤ k)
      → ((ending (attempt + 1) found).0, (ending (attempt + 1) found).1 + 2) ≡ ending attempt found
  slept_more attempt none h later = ap (λ n. (exits, n)) (omega arith)
  slept_more attempt (some (k, mac)) h later =
      ap (λ n. (bt_mac mac, n)) (omega (arith, later k mac refl))

  lookup_loop-first :
      (left attempt : ℕ)
      → attempt + left ≡ 6
      → 0 < left
      → lookup_loop hci address left attempt ≡ ending attempt (first left attempt)
  unfolding lookup_loop
  lookup_loop-first zero attempt six pos = absurd (omega arith)
  lookup_loop-first (suc zero) attempt six pos = elim (Option-cases (answers attempt)) [
    | inr (mac, now) ↦ rw (lookup_loop, first, now) (zero_slept attempt mac)
    | inl none_now ↦
        rw (lookup_loop, first, none_now) (rw (let e : attempt ≡ 5 = omega arith in e) refl)
  ]
  lookup_loop-first (suc (suc left)) attempt six pos = elim (Option-cases (answers attempt)) [
    | inr (mac, now) ↦ rw (lookup_loop, first, now) (zero_slept attempt mac)
    | inl none_now ↦
        rw (lookup_loop, first, none_now, let e : ltb attempt 5 ≡ true = ground (arith, six) in e)
          (ap (λ (r : Looked × ℕ). (r.0, r.1 + 2))
              (lookup_loop-first (suc left) (attempt + 1) (omega arith) (omega arith))
            ∙ slept_more attempt (first (suc left) (attempt + 1)) (omega arith)
                (first-later (suc left) (attempt + 1)))
  ]

  -- The adapter's MAC is that of the first of five attempts that gives one, with two seconds slept
  -- before each other; without one the program exits, after eight seconds.
  pub lookup_mac-first : lookup_mac hci address ≡ ending 1 (first 5 1)
  unfolding lookup_mac
  lookup_mac-first = lookup_loop-first 5 1 refl (omega arith)
