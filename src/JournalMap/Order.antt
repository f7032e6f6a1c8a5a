-- ===== src/JournalMap/Order.antt =====
-- What journal_read and journal_size report after journal_append.
use mathlib.Core.List.{append-nil, append_assoc}
use ds_service.Base.{
  ℕ, zero, suc, ◌+◌, ◌-◌, min, ◌≡◌, refl, sym, ap, ◌∙◌, String, none, some, List, [], ◌∷◌, length,
  get_or, push_back, ◌++◌, length-append, arith, ◌==◌, eq_iff, if◌then◌else◌,
}
use ds_service.Error.{ok}
use ds_service.JournalMap.{JournalMap, size, read, append, read_from}
use ds_service.Messages.{JournalSizeRequest, JournalReadRequest, JournalAppendRequest}
use ds_service.ThirdParty.{ThirdParty, subscript, subscript-value, find-subscript}

-- The entries of a list from index `start` up to `end`, exclusive, as far as there are such.
unfoldable pub slice : List String → ℕ → ℕ → List String
slice [] start end = []
slice (x ∷ xs) zero zero = []
slice (x ∷ xs) zero (suc end) = x ∷ slice xs zero end
slice (x ∷ xs) (suc start) zero = []
slice (x ∷ xs) (suc start) (suc end) = slice xs start end

add-one : (n : ℕ) → n + 1 ≡ suc n
add-one n = omega arith

read_from-skip :
    (x : String) (xs : List String) (i n : ℕ) → read_from (x ∷ xs) (suc i) n ≡ read_from xs i n
unfolding read_from
read_from-skip x xs i zero = refl
read_from-skip x xs i (suc n) =
    rw (add-one (suc i), add-one i) (ap (◌∷◌ (get_or xs i "")) (read_from-skip x xs (suc i) n))

-- Both ends of the loop, and its rounds, one entry further on.
ends_further :
    (start end size : ℕ)
    → (min (suc start) (suc size) ≡ suc (min start size))
      × (min (suc end) (suc size) - min (suc start) (suc size) ≡ min end size - min start size)
ends_further start end size = omega arith

first_round :
    (end size : ℕ)
    → (min 0 (suc size) ≡ 0)
      × (min (suc end) (suc size) - 0 ≡ suc (min end size - 0))
      × (min 0 size ≡ 0)
first_round end size = omega arith

no_round : (start size : ℕ) → min 0 size - min start size ≡ 0
no_round start size = omega arith

slice-end_zero : (xs : List String) (start : ℕ) → slice xs start 0 ≡ []
unfolding slice
slice-end_zero [] start = refl
slice-end_zero (x ∷ xs) zero = refl
slice-end_zero (x ∷ xs) (suc start) = refl

-- The loop of journal_read gives the slice.
read_from-slice :
    (xs : List String) (start end : ℕ)
    → read_from xs (min start (length xs)) (min end (length xs) - min start (length xs))
      ≡ slice xs start end
unfolding read_from slice get_or
read_from-slice [] start end = rw (none_left start end)
  where
    none_left : (a b : ℕ) → min b 0 - min a 0 ≡ 0
    none_left a b = omega arith
read_from-slice (x ∷ xs) start zero =
    rw (no_round start (suc (length xs)), slice-end_zero (x ∷ xs) start)
read_from-slice (x ∷ xs) zero (suc end) =
    let (at, rounds, start) = first_round end (length xs) in
    rw (at, rounds)
      (ap (◌∷◌ x) (read_from-skip x xs 0 _ ∙ rw start at (read_from-slice xs zero end)))
read_from-slice (x ∷ xs) (suc start) (suc end) =
    let (at, rounds) = ends_further start end (length xs) in
    rw (rounds, at) (read_from-skip x xs _ _ ∙ read_from-slice xs start end)

module _ (P : ThirdParty) where
  -- the journal under a key, empty where there is none
  abbrev pub journal : JournalMap P → String → List String
  journal m key = elim (P.find m.entries key) [ none ↦ [] | some xs ↦ xs ]

  -- journal_read returns the slice of the journal, and journal_size its length.
  pub read-slice :
      (m : JournalMap P) (request : JournalReadRequest)
      → read P m request
        ≡ ok (record { entry = slice (journal m request.key) request.start request.end })
  unfolding read slice
  read-slice m request =
      ground (arith, read_from-slice (journal m request.key) request.start request.end)

  pub size-length :
      (m : JournalMap P) (request : JournalSizeRequest)
      → size P m request ≡ ok (record { size = length (journal m request.key) })
  unfolding size
  size-length m request = ground arith

  -- An append adds its value at the end of its journal, and leaves every other journal alone.
  pub journal-append :
      (m : JournalMap P) (request : JournalAppendRequest) (key : String)
      → journal (append P m request).1 key
        ≡ (if request.key == key then push_back (journal m key) request.value else journal m key)
  unfolding append
  journal-append m request key =
      let entered = (subscript P.maps [] m.entries request.key).1 in
      let value = push_back (subscript P.maps [] m.entries request.key).0 request.value in
      ground (
        arith,
        subscript-value P.maps [] m.entries request.key,
        find-subscript P.maps [] m.entries request.key key,
        P.find-assign entered request.key value key,
        eq_iff request.key key,
      )

  -- The manager after a list of appends, in this order, and the values that they append under a key.
  pub run : JournalMap P → List JournalAppendRequest → JournalMap P
  run m [] = m
  run m (request ∷ requests) = run (append P m request).1 requests

  pub appended : List JournalAppendRequest → String → List String
  appended [] key = []
  appended (request ∷ requests) key =
      let rest = appended requests key in if request.key == key then request.value ∷ rest else rest

  pub journal-run :
      (m : JournalMap P) (requests : List JournalAppendRequest) (key : String)
      → journal (run m requests) key ≡ journal m key ++ appended requests key
  unfolding run appended
  journal-run m [] key = sym (append-nil (journal m key))
  journal-run m (request ∷ requests) key = ground (
    arith,
    journal-run (append P m request).1 requests key,
    journal-append m request key,
    append_assoc (journal m key) (request.value ∷ []) (appended requests key),
  )

  -- After any appends by any clients, journal_read over a range returns, in the order of appending, the
  -- slice of what was there before followed by all values appended under the key; journal_size counts them.
  pub read-run :
      (m : JournalMap P) (requests : List JournalAppendRequest) (request : JournalReadRequest)
      → (read P (run m requests) request
          ≡ ok (record {
            entry =
                slice
                  (journal m request.key ++ appended requests request.key)
                  request.start
                  request.end;
          }))
        × (size P (run m requests) (record { key = request.key })
            ≡ ok (record {
              size = length (journal m request.key) + length (appended requests request.key);
            }))
  read-run m requests request = (
    ground (arith, read-slice (run m requests) request, journal-run m requests request.key),
    ground (
      arith,
      size-length (run m requests) (record { key = request.key }),
      journal-run m requests request.key,
      length-append (journal m request.key) (appended requests request.key),
    ),
  )
