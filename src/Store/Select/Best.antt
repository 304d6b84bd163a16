-- ===== src/Store/Select/Best.antt =====
-- The picked task is a qualified one that no other comes before, and does not depend on the order
-- in which `range` meets the tasks.
use mathlib.Core.List.{Memᴰ}
use taskpulse.Prelude.{
  String, ◌≡◌, sym, ◌∙◌, ◌⊎◌, inl, inr, ◌≢◌, Bool, true, false, ◌&&◌, Option, none, some, [], ◌∷◌,
  arith, Assoc, lookup, Distinct, mem-of_lookup, lookup-of_mem, IsOrder, Bool-cases, Option-cases,
  if◌then◌else◌,
}
use taskpulse.Store.Select.{select, improves}

module _ {T : Type 0} (eligible : T → Bool) (before : T → T → Bool) where
  pub record IsBest (m : Assoc T) (k : String) (t : T) : Type 0 where
    pub stored : lookup k m ≡ some t
    pub qualified : eligible t ≡ true
    pub first : (j : String) (s : T) → lookup j m ≡ some s → eligible s ≡ true → before s t ≡ false

  -- Where a selection comes from.
  select-source :
      (m : Assoc T) (selected : Option (String × T)) (k : String) (t : T)
      → select eligible before m selected ≡ some (k, t)
      → (selected ≡ some (k, t)) ⊎ (Memᴰ (k, t) m × (eligible t ≡ true))
  unfolding select
  select-source [] selected k t e = inl e
  select-source ((j, s) ∷ m) selected k t e =
      elim (Bool-cases (eligible s && improves before s selected)) [
        | inl better ↦ elim (select-source m (some (j, s)) k t (ground arith)) [
          | inl here ↦ inr (Memᴰ.head (ground arith), ground arith)
          | inr (there, good) ↦ inr (Memᴰ.tail there, good)
        ]
        | inr worse ↦ elim (select-source m selected k t (ground arith)) [
          | inl here ↦ inl here
          | inr (there, good) ↦ inr (Memᴰ.tail there, good)
        ]
      ]

  -- Nothing that was selected on the way is better than the end result.
  select-beats_selected :
      IsOrder before
      → (m : Assoc T) (j k : String) (s t : T)
      → select eligible before m (some (j, s)) ≡ some (k, t)
      → before s t ≡ false
  unfolding select
  select-beats_selected o [] j k s t e = ground (arith, o.irrefl t)
  select-beats_selected o ((i, x) ∷ m) j k s t e = ground (
    arith,
    select-beats_selected o m j k s t,
    select-beats_selected o m i k x t,
    o.asym x s,
    o.skip s x t,
  )

  select-beats_rest :
      IsOrder before
      → (m : Assoc T) (selected : Option (String × T)) (j k : String) (s t : T)
      → select eligible before m selected ≡ some (k, t)
      → Memᴰ (j, s) m
      → eligible s ≡ true
      → before s t ≡ false
  unfolding select
  select-beats_rest o [] selected j k s t e h good = elim h [ ]
  select-beats_rest o ((i, x) ∷ m) none j k s t e (Memᴰ.head at) good =
      ground (arith, select-beats_selected o m i k x t)
  select-beats_rest o ((i, x) ∷ m) (some (h, r)) j k s t e (Memᴰ.head at) good =
      ground
        (arith, select-beats_selected o m i k x t, select-beats_selected o m h k r t, o.skip x r t)
  select-beats_rest o ((i, x) ∷ m) selected j k s t e (Memᴰ.tail h) good =
      select-beats_rest o m
        (if eligible x && improves before x selected then some (i, x) else selected) j k s t e h
        good

  -- A result is the best of the qualified tasks.
  pub select-IsBest :
      IsOrder before
      → (m : Assoc T) (k : String) (t : T) → Distinct m
      → select eligible before m none ≡ some (k, t)
      → IsBest m k t
  select-IsBest o m k t d e = elim (select-source m none k t e) [
    | inl never ↦ cc
    | inr (there, good) ↦ record {
      stored = lookup-of_mem k t m d there;
      qualified = good;
      first = λ j s found fit. select-beats_rest o m none j k s t e (mem-of_lookup j s m found) fit;
    }
  ]

  -- Once something is selected, something stays selected.
  select-keeps : (m : Assoc T) (j : String) (s : T) → select eligible before m (some (j, s)) ≢ none
  unfolding select
  select-keeps [] j s e = cc
  select-keeps ((i, x) ∷ m) j s e = ground (arith, select-keeps m j s, select-keeps m i x)

  -- No result means that no task qualifies.
  pub select-none :
      (m : Assoc T) (j : String) (s : T)
      → select eligible before m none ≡ none
      → Memᴰ (j, s) m
      → eligible s ≡ false
  unfolding select
  select-none [] j s e h = elim h [ ]
  select-none ((i, x) ∷ m) j s e (Memᴰ.head at) = ground (arith, select-keeps m i x)
  select-none ((i, x) ∷ m) j s e (Memᴰ.tail h) =
      ground (arith, select-keeps m i x, select-none m j s)

  -- Two selections over the same entries, met in two orders.
  pub select-same :
      IsOrder before
      → (m n : Assoc T) → Distinct m
      → Distinct n
      → ((k : String) → lookup k m ≡ lookup k n)
      → ((j k : String) (s t : T)
          → lookup j m ≡ some s
          → lookup k m ≡ some t
          → before s t ≡ false
          → before t s ≡ false
          → j ≡ k)
      → select eligible before m none ≡ select eligible before n none
  select-same o m n dm dn same tie = elim (Option-cases (select eligible before m none)) [
    | inl none_m ↦ elim (Option-cases (select eligible before n none)) [
      | inl none_n ↦ none_m ∙ sym none_n
      | inr ((k, t), some_n) ↦
          let best = select-IsBest o n k t dn some_n in
          cc (select-none m k t none_m (mem-of_lookup k t m (same k ∙ best.stored)), best.qualified)
    ]
    | inr ((j, s), some_m) ↦
        let best = select-IsBest o m j s dm some_m in
        elim (Option-cases (select eligible before n none)) [
          | inl none_n ↦ cc (
            select-none n j s none_n (mem-of_lookup j s n (sym (same j) ∙ best.stored)),
            best.qualified,
          )
          | inr ((k, t), some_n) ↦
              let other = select-IsBest o n k t dn some_n in
              let found : lookup k m ≡ some t = same k ∙ other.stored in
              let key : j ≡ k =
                tie j k s t best.stored found
                  (other.first j s (sym (same j) ∙ best.stored) best.qualified)
                  (best.first k t found other.qualified) in
              cc (some_m, some_n, key, best.stored, found)
        ]
  ]
