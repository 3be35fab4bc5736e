-- ===== src/Reduce/Candidate/History.antt =====
-- The environment history of a candidate: what its validator accepts.
use tensorrt_upgrade_guard.Prelude.{
  ◌≤◌, String, string_eq, option_eq, eq_iff, ◌≡◌, ◌↔◌, refl, sym, ap, arith, Bool, true, false, not,
  ◌&&◌, ◌||◌, Option, none, some, some-cancel, List, [], ◌∷◌, ◌++◌, length, ltb, ◌==◌, len_set,
  len_set_iff, contains, contains_iff, Unique, Occurs,
}
use tensorrt_upgrade_guard.Errors.{ok, raise_if_then, raise_if_iff}
use tensorrt_upgrade_guard.Reduce.Candidate.{
  LockedEnvironmentBoundary, EnvironmentHistoryNotApplicable, identities, last_entry, list_equal,
  is_nonempty, is_some, disposition, validate_environment_history,
}

list_equal_iff : (xs ys : List String) → (list_equal xs ys ≡ true) ↔ (xs ≡ ys)
unfolding list_equal
list_equal_iff [] [] = (λ h. refl, λ h. refl)
list_equal_iff [] (y ∷ ys) = (λ h. cc, λ h. cc)
list_equal_iff (x ∷ xs) [] = (λ h. cc, λ h. cc)
list_equal_iff (x ∷ xs) (y ∷ ys) = ground (arith, eq_iff x y, list_equal_iff xs ys)

-- The history ends with this environment.
abbrev pub EndsWith : List String → String → Type 0
EndsWith history e = (before : List String) × (history ≡ before ++ e ∷ [])

no_end : (e : String) → ¬ EndsWith [] e
no_end e ([], h) = cc
no_end e (x ∷ before, h) = cc

end_single : (x e : String) → EndsWith (x ∷ []) e → x ≡ e
end_single x e ([], h) = cc
end_single x e (y ∷ before, h) = absurd (no_end e (before, cc))

end_tail :
    (x y e : String) (history : List String)
    → EndsWith (x ∷ y ∷ history) e
    → EndsWith (y ∷ history) e
end_tail x y e history ([], h) = cc
end_tail x y e history (z ∷ before, h) = (before, cc)

last_entry_iff :
    (history : List String) (e : String) → (last_entry history ≡ some e) ↔ EndsWith history e
unfolding last_entry
last_entry_iff [] e = (λ h. cc, λ h. absurd (no_end e h))
last_entry_iff (x ∷ []) e =
    (λ h. ([], ap (λ v. v ∷ []) (some-cancel h)), λ h. ap (λ v. some v) (end_single x e h))
last_entry_iff (x ∷ y ∷ history) e =
    let rest = last_entry_iff (y ∷ history) e in
    (
      λ h. let (before, cut) = rest.0 h in (x ∷ before, ap (λ l. x ∷ l) cut),
      λ h. rest.1 (end_tail x y e history h),
    )

-- The terminal dispositions: none; a boundary, which is the history and fails last; or a seed with no
-- passing environment, whose observations are the history and which keeps the last one.
abbrev pub Disposed :
    String
    → List String
    → Option LockedEnvironmentBoundary
    → Option EnvironmentHistoryNotApplicable
    → Type 0
Disposed e history none none = Unit
Disposed e history (some b) none =
    (history ≡ b.last_passing ∷ b.first_failing ∷ []) × (e ≡ b.first_failing)
Disposed e history none (some n) = (history ≡ identities n) × EndsWith history e
Disposed e history (some b) (some n) = ⊥

-- A history is empty, or has at least two entries, all different, with the environment among them.
abbrev pub IsOrdered : String → List String → Type 0
IsOrdered e [] = Unit
IsOrdered e history = (2 ≤ length history) × Unique history × Occurs e history

IsOrdered-iff :
    (e : String) (history : List String)
    → ((is_nonempty history && (ltb (length history) 2 || not (length history == len_set history))
          ≡ false)
        × (is_nonempty history && not (contains history e) ≡ false))
      ↔ IsOrdered e history
unfolding is_nonempty
IsOrdered-iff e [] = (λ h. tt, λ h. (refl, refl))
IsOrdered-iff e (x ∷ history) =
    let unique = len_set_iff (x ∷ history) in
    let present = contains_iff (x ∷ history) e in
    (
      λ (fits, known). (ground arith, unique.0 (ground arith), present.0 (ground arith)),
      λ (long, different, occurs).
          let same = unique.1 different in
          let found = present.1 occurs in (ground arith, ground arith),
    )

not-false : {b : Bool} → not b ≡ false → b ≡ true
not-false {b = true} h = refl
not-false {b = false} h = cc

disposition_iff :
    (e : String) (history : List String) (b : Option LockedEnvironmentBoundary)
    (n : Option EnvironmentHistoryNotApplicable)
    → ((is_some b && is_some n ≡ false) × (disposition e history b n ≡ ok tt))
      ↔ Disposed e history b n
unfolding disposition is_some
disposition_iff e history none none = (λ h. tt, λ h. (refl, refl))
disposition_iff e history (some b) (some n) = (λ h. cc (h.0), λ h. absurd h)
disposition_iff e history (some b) none =
    let same = list_equal_iff history (b.last_passing ∷ b.first_failing ∷ []) in
    let here = eq_iff e b.first_failing in
    (
      λ (_, h).
          let (covers, fails) = (raise_if_then _ _ _).0 h in
          (same.0 (not-false covers), here.0 (not-false ((raise_if_iff _ _).0 fails))),
      λ (covers, fails). (
        refl,
        (raise_if_then _ _ _).1
            (ap not (same.1 covers), (raise_if_iff _ _).1 (ap not (here.1 fails))),
      ),
    )
disposition_iff e history none (some n) =
    let same = list_equal_iff history (identities n) in
    let here = option_eq.beq_iff (some e) (last_entry history) in
    let ends = last_entry_iff history e in
    (
      λ (_, h).
          let (covers, last) = (raise_if_then _ _ _).0 h in
          (
            same.0 (not-false covers),
            ends.0 (sym (here.0 (not-false ((raise_if_iff _ _).0 last)))),
          ),
      λ (covers, last). (
        refl,
        (raise_if_then _ _ _).1
            (ap not (same.1 covers), (raise_if_iff _ _).1 (ap not (here.1 (sym (ends.1 last))))),
      ),
    )

-- The validator accepts an environment history exactly when it is empty or has at least two
-- different entries with the environment among them, and it has one terminal disposition at most:
-- a boundary that is the whole history and fails in the environment, or observations that cover
-- the history, which the environment ends.
pub validate_environment_history_iff :
    (e : String) (history : List String) (b : Option LockedEnvironmentBoundary)
    (n : Option EnvironmentHistoryNotApplicable)
    → (validate_environment_history e history b n ≡ ok tt)
      ↔ (IsOrdered e history × Disposed e history b n)
unfolding validate_environment_history
validate_environment_history_iff e history b n =
    let ordered = IsOrdered-iff e history in
    let disposed = disposition_iff e history b n in
    (
      λ h.
          let (fits, h1) = (raise_if_then _ _ _).0 h in
          let (known, h2) = (raise_if_then _ _ _).0 h1 in
          (ordered.0 (fits, known), disposed.0 ((raise_if_then _ _ _).0 h2)),
      λ (o, d).
          let (fits, known) = ordered.1 o in
          (raise_if_then _ _ _).1
            (fits, (raise_if_then _ _ _).1 (known, (raise_if_then _ _ _).1 (disposed.1 d))),
    )
