-- ===== src/History/Recent.antt =====
-- The log is the end of the list of all messages.
use mathlib.Core.List.{append-nil, append_assoc}
use reticulum_forwarding_ser.Base.{
  ℕ, zero, suc, ◌+◌, ◌-◌, ◌≤◌, ◌≡◌, refl, sym, ap, ◌∙◌, Bool, [], ◌∷◌, ◌++◌, if◌then◌else◌, length,
  drop, List, some, some-injective, Bool-cases, inl, inr, ltb, length-drop, length-append,
  drop-drop, arith, subst,
}
use reticulum_forwarding_ser.History.{
  Entry, Log, Stored, no_file, empty_file, unreadable, undecodable, messages, keep_last, load,
  new_log, append, log_len,
}

-- A run of appends, each of which may fail to write its file.
pub append_all : List (Bool × Entry) → Log → Log
append_all [] l = l
append_all ((saved, e) ∷ es) l = append_all es (append saved e l).0

-- All messages that a log has been given.
pub given : List (Bool × Entry) → List Entry
given [] = []
given ((saved, e) ∷ es) = e ∷ given es

pub stored_messages : Stored → List Entry
stored_messages no_file = []
stored_messages empty_file = []
stored_messages unreadable = []
stored_messages undecodable = []
stored_messages (messages ms) = ms

module _ {A : Type 0} where
  -- The suffix of a given length.
  pub last : ℕ → List A → List A
  last n xs = drop (length xs - n) xs

  keep_last-last : (n : ℕ) (xs : List A) → keep_last n xs ≡ last n xs
  unfolding keep_last last
  keep_last-last n xs = elim (Bool-cases (ltb n (length xs))) [
    | inl e ↦ rw (e) refl
    | inr e ↦ (let z : length xs - n ≡ 0 = ground (arith, e) in rw (e, z) refl)
  ]

  drop-within : (n : ℕ) (xs ys : List A) → n ≤ length xs → drop n (xs ++ ys) ≡ drop n xs ++ ys
  drop-within zero xs ys h = refl
  drop-within (suc n) [] ys h = absurd (omega (arith, h))
  drop-within (suc n) (x ∷ xs) ys h = drop-within n xs ys (omega (arith, h))

  -- To keep the end of a longer list again adds nothing to keeping it once.
  last-extended : (n : ℕ) (xs ys : List A) → last n (last n xs ++ ys) ≡ last n (xs ++ ys)
  unfolding last
  last-extended n xs ys =
      let k = length xs - n in
      let within = drop-within k xs ys (omega arith) in
      let total : length (drop k xs ++ ys) ≡ length xs - k + length ys =
        omega (arith, length-append (drop k xs) ys, length-drop k xs) in
      let all : length (xs ++ ys) ≡ length xs + length ys = length-append xs ys in
      let j : length (drop k xs ++ ys) - n ≡ length xs - k + length ys - n = omega (arith, total) in
      let end : k + (length xs - k + length ys - n) ≡ length (xs ++ ys) - n = omega (arith, all) in
      ap (λ i. drop i (drop k xs ++ ys)) j
      ∙ ap (drop (length xs - k + length ys - n)) (sym within)
      ∙ drop-drop k (length xs - k + length ys - n) (xs ++ ys)
      ∙ ap (λ i. drop i (xs ++ ys)) end

  last-empty : (n : ℕ) → last n [] ≡ []
  unfolding last
  last-empty n = let none_over : 0 - n ≡ 0 = omega arith in ap (λ i. drop i []) none_over

  length-last : (n : ℕ) (xs : List A) → length (last n xs) ≤ n
  unfolding last
  length-last n xs = omega (arith, length-drop (length xs - n) xs)

appended-last :
    (es : List (Bool × Entry)) (l : Log) (all : List Entry)
    → l.entries ≡ last l.capacity all
    → (append_all es l).entries ≡ last l.capacity (all ++ given es)
unfolding append_all given append
appended-last [] l all h = h ∙ ap (last l.capacity) (sym (append-nil all))
appended-last ((saved, e) ∷ es) l all h =
    let kept : (append saved e l).0.entries ≡ last l.capacity (all ++ (e ∷ [])) =
      keep_last-last l.capacity (l.entries ++ (e ∷ []))
      ∙ ap (λ x. last l.capacity (x ++ (e ∷ []))) h
      ∙ last-extended l.capacity all (e ∷ []) in
    appended-last es (append saved e l).0 (all ++ (e ∷ [])) kept
    ∙ ap (last l.capacity) (append_assoc all (e ∷ []) (given es))

load-last :
    (file : Stored) (c : ℕ) (l : Log)
    → load file (record { capacity = c; entries = [] }) ≡ some l
    → (l.entries ≡ last c (stored_messages file)) × (l.capacity ≡ c)
unfolding load stored_messages last
load-last no_file c l h =
    let q = some-injective h in
    (ap (λ x. x.entries) (sym q) ∙ sym (last-empty c), ap (λ x. x.capacity) (sym q))
load-last empty_file c l h =
    let q = some-injective h in
    (ap (λ x. x.entries) (sym q) ∙ sym (last-empty c), ap (λ x. x.capacity) (sym q))
load-last unreadable c l h = absurd cc
load-last undecodable c l h = absurd cc
load-last (messages ms) c l h =
    let q = some-injective h in
    (ap (λ x. x.entries) (sym q) ∙ keep_last-last c ms, ap (λ x. x.capacity) (sym q))

-- A log that was opened on a file and given any messages, whether their writes succeeded or not,
-- holds exactly the last ones of the file's messages and the given ones in their order: as many as
-- the capacity, which is at least 1, or all of them; it never holds more than the capacity.
pub append_all-last :
    (file : Stored) (capacity : ℕ) (l : Log) (es : List (Bool × Entry))
    → new_log file capacity ≡ some l
    → ((append_all es l).entries ≡ last l.capacity (stored_messages file ++ given es))
      × (log_len (append_all es l) ≤ l.capacity)
      × (1 ≤ l.capacity)
      × (1 ≤ capacity → l.capacity ≡ capacity)
unfolding new_log log_len
append_all-last file capacity l es h =
    let c = if ltb capacity 1 then 1 else capacity in
    let (loaded, cap) = load-last file c l h in
    let content =
      appended-last es l (stored_messages file)
        (loaded ∙ ap (λ n. last n (stored_messages file)) (sym cap)) in
    let short : log_len (append_all es l) ≤ l.capacity =
      subst (λ x. length x ≤ l.capacity) (sym content)
        (length-last l.capacity (stored_messages file ++ given es)) in
    (content, short, ground (arith, cap), λ p. ground (arith, cap, p))
