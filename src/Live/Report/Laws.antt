-- ===== src/Live/Report/Laws.antt =====
-- The checks of a report as a dictionary.
use one_year_billion.Common.{
  Bool, true, is_empty, is_empty-sorted_set, ◌&&◌, ◌≡◌, ◌≟◌, refl, arith, inl, inr, Bool-cases,
  ≟_refl, and-true, String, Dict, get, put, get-put, [], ◌∷◌,
}
use one_year_billion.Live.Report.{Report, result_ok, conclude, is_set, all_hold}

pub all_hold-put : (k : String) (d : Dict Bool) → all_hold d ≡ true → all_hold (put k true d) ≡ true
unfolding put
all_hold-put k [] h = refl
all_hold-put k ((j, b) ∷ d) h = ground (arith, all_hold-put k d)

-- A check that holds stays so, whichever other check is found to hold.
pub is_set-put :
    (k j : String) (d : Dict Bool) → is_set (get j d) ≡ true → is_set (get j (put k true d)) ≡ true
is_set-put k j d h = elim (Bool-cases (k ≟ j)) [
  | inl e ↦ rw (get-put k j true d, e) refl
  | inr e ↦ rw (get-put k j true d, e) h
]

pub is_set-put_same : (k : String) (d : Dict Bool) → is_set (get k (put k true d)) ≡ true
is_set-put_same k d = rw (get-put k k true d, ≟_refl k) refl

-- A concluded report is in order just where it has no reason and all its checks hold.
pub result_ok-conclude :
    (r : Report) → result_ok (conclude r) ≡ (is_empty r.reasons && all_hold r.checks)
unfolding result_ok conclude
result_ok-conclude r = elim (Bool-cases (is_empty r.reasons && all_hold r.checks)) [
  | inl e ↦
      let (q, a) = and-true (is_empty r.reasons) (all_hold r.checks) e in
      rw (e, is_empty-sorted_set r.reasons, q, a) refl
  | inr e ↦ rw e refl
]
