-- ===== src/Rns/Resource/Receiver/Requests.antt =====
-- What requestNextWindow asks for.
use reticulum_forwarding_ser.Base.{
  ℕ, zero, suc, ◌+◌, ◌≤◌, ◌<◌, ◌≡◌, ◌⊎◌, inl, inr, refl, ap, Bool, true, false, List, [], ◌∷◌, ◌==◌,
  ltb, Bool-cases, length, get_or, All, some, arith,
}
use reticulum_forwarding_ser.Base.Bytes.{Bytes}
use reticulum_forwarding_ser.Rns.Resource.{window_max_slow}
use reticulum_forwarding_ser.Rns.Resource.Wire.{ResourceRequest}
use reticulum_forwarding_ser.Rns.Resource.Receiver.{
  Receiver, missing, all_received, map_entries, wanted_entries, is_exhausted, next_request,
  request_next_window,
}
use reticulum_forwarding_ser.Rns.Resource.Receiver.Invariant.{IsValid, count_true}

-- An entry of the range that has not been received.
abbrev pub IsOpen : List Bool → ℕ → ℕ → ℕ → Type 0
IsOpen flags lo hi i = (lo ≤ i) × (i < hi) × (get_or flags i false ≡ false)

All-IsOpen :
    (flags : List Bool) (lo hi : ℕ) (is : List ℕ)
    → All (IsOpen flags (lo + 1) hi) is
    → All (IsOpen flags lo hi) is
All-IsOpen flags lo hi [] a = tt
All-IsOpen flags lo hi (i ∷ is) ((l, h, f), a) = ((omega arith, h, f), All-IsOpen flags lo hi is a)

missing-IsOpen :
    (flags : List Bool) (i n room hi : ℕ)
    → i + n ≤ hi
    → All (IsOpen flags i hi) (missing flags i n room)
unfolding missing
missing-IsOpen flags i zero room hi h = tt
missing-IsOpen flags i (suc n) zero hi h = tt
missing-IsOpen flags i (suc n) (suc room) hi h = elim (Bool-cases (get_or flags i false)) [
  | inl got ↦
      rw got (All-IsOpen flags i hi _ (missing-IsOpen flags (i + 1) n (suc room) hi (omega arith)))
  | inr gap ↦ rw gap (
    (omega arith, omega arith, gap),
    All-IsOpen flags i hi _ (missing-IsOpen flags (i + 1) n room hi (omega arith)),
  )
]

length-missing : (flags : List Bool) (i n room : ℕ) → length (missing flags i n room) ≤ room
unfolding missing
length-missing flags i zero room = omega arith
length-missing flags i (suc n) zero = omega arith
length-missing flags i (suc n) (suc room) =
    ground (arith, length-missing flags (i + 1) n (suc room), length-missing flags (i + 1) n room)

-- With room left, nothing is missing exactly when everything was received.
missing-nil :
    (flags : List Bool) (i n room : ℕ)
    → length (missing flags i n (suc room)) ≡ 0
    → all_received flags i n ≡ true
unfolding missing all_received
missing-nil flags i zero room h = refl
missing-nil flags i (suc n) room h = ground (arith, missing-nil flags (i + 1) n room)

all_received-flag :
    (flags : List Bool) (i n j : ℕ)
    → all_received flags i n ≡ true
    → i ≤ j
    → j < i + n
    → get_or flags j false ≡ true
unfolding all_received
all_received-flag flags i zero j h a b = absurd (omega arith)
all_received-flag flags i (suc n) j h a b = elim (Bool-cases (i == j)) [
  | inl here ↦ (let e : i ≡ j = ground arith in rw (← e) (ground arith))
  | inr there ↦ all_received-flag flags (i + 1) n j (ground arith) (ground arith) (omega arith)
]

length-map_entries : (hm : Bytes) (is : List ℕ) → length (map_entries hm is) ≡ length is
length-map_entries hm [] = refl
length-map_entries hm (i ∷ is) = ap suc (length-map_entries hm is)

flags_full :
    (fs : List Bool)
    → ((i : ℕ) → i < length fs → get_or fs i false ≡ true)
    → count_true fs ≡ length fs
flags_full [] h = refl
flags_full (true ∷ fs) h = ap suc (flags_full fs (λ i lt. h (suc i) (omega arith)))
flags_full (false ∷ fs) h = absurd (cc (h 0 (omega arith)))

-- The request asks for at most ReceiverWindowMaxOutstanding parts, all of them known and not yet
-- received, by their map hashes; the state afterwards differs in the target only, which is the
-- count that the request brings when it is answered in full.
pub request_next_window_asks :
    (rr rr' : Receiver) (req : ResourceRequest)
    → request_next_window rr ≡ (rr', some req)
    → (wanted : List ℕ) × All (IsOpen rr.received_flags 0 rr.known_prefix) wanted
      × (length wanted ≤ window_max_slow)
      × (req.requested_map ≡ map_entries rr.hashmap wanted)
      × (rr' ≡ record rr { pending_target = rr.received_count + length wanted })
unfolding request_next_window
request_next_window_asks rr rr' req h = (
  wanted_entries rr,
  unfold wanted_entries in
      missing-IsOpen rr.received_flags 0 rr.known_prefix window_max_slow rr.known_prefix
        (omega arith),
  unfold wanted_entries in length-missing rr.received_flags 0 rr.known_prefix window_max_slow,
  ground arith,
  ground arith,
)

all_known :
    (rr : Receiver)
    → IsValid rr
    → all_received rr.received_flags 0 rr.known_prefix ≡ true
    → rr.received_count < length rr.parts
    → rr.known_prefix < length rr.parts
all_known rr v all lacking = elim (Bool-cases (ltb rr.known_prefix (length rr.parts))) [
  | inl below ↦ ground arith
  | inr done ↦
      (let full = flags_full rr.received_flags (λ i lt.
          all_received-flag rr.received_flags 0 rr.known_prefix i all (omega arith)
            (ground (arith, v.flags_n))) in
        absurd (omega (arith, full, v.counted, v.flags_n)))
]

-- A receiver that knows an entry and lacks a part is never silent: there is a request, and it asks
-- for a part, or it says that the known entries are used up and more are needed.
pub request_next_window_progress :
    (rr : Receiver)
    → IsValid rr
    → 0 < rr.known_prefix
    → rr.received_count < length rr.parts
    → (req : ResourceRequest) × ((request_next_window rr).1 ≡ some req)
      × ((0 < length req.requested_map)
          ⊎ ((req.exhausted ≡ true) × (rr.known_prefix < length rr.parts)))
unfolding request_next_window
request_next_window_progress rr v known lacking =
    elim (Bool-cases (length (wanted_entries rr) == 0)) [
      | inl nothing ↦
          (let all : all_received rr.received_flags 0 rr.known_prefix ≡ true =
              missing-nil rr.received_flags 0 rr.known_prefix 9
                (unfold wanted_entries in (ground arith)) in
            let more = all_known rr v all lacking in
            let spent : is_exhausted rr ≡ true = unfold is_exhausted in (ground arith) in
            (next_request rr, rw (nothing, spent) refl, inr (spent, more)))
      | inr something ↦ (
        next_request rr,
        rw something refl,
        inl (ground (arith, length-map_entries rr.hashmap (wanted_entries rr))),
      )
    ]
