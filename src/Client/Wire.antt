-- ===== src/Client/Wire.antt =====
-- Clients of one server, over gRPC: each makes its calls one after the other.
use ds_service.Base.{
  ℕ, zero, suc, String, Bool, true, false, ◌≡◌, refl, sym, ap, ◌∙◌, ◌==◌, if◌then◌else◌, List, [],
  ◌∷◌, length, inl, inr, Bool-cases, eq_iff, push_back, length-push_back, arith,
}
use ds_service.Client.{
  ClientTransport, field_of, project, map_set, map_get, journal_size, journal_read, journal_append,
}
use ds_service.Error.{Result, ok, unexpected}
use ds_service.Grpc.Client.{remote}
use ds_service.Grpc.Client.Calls.{client_closed}
use ds_service.Grpc.Client.Transparent.{across, remote-perform}
use ds_service.Map.Contents.{get-set}
use ds_service.JournalMap.Order.{journal, journal-append, size-length, read-slice, slice}
use ds_service.Messages.{
  MapGetResponse, JournalAppendRequest, JournalSizeResponse, JournalReadResponse,
}
use ds_service.SystemState.{Call, Answer, SystemState, perform}
use ds_service.SystemState
use ds_service.ThirdParty.{ThirdParty}
use ds_service.TimeSeries.{Chrono}

ok-inj : {m n : ℕ} → ok m ≡ ok n → m ≡ n
ok-inj e = cc

slice-end :
    (xs : List String) (value : String) (n : ℕ)
    → length xs ≡ n
    → slice (push_back xs value) n (suc n) ≡ value ∷ []
unfolding slice
slice-end [] value zero e = refl
slice-end [] value (suc n) e = cc
slice-end (x ∷ xs) value zero e = cc
slice-end (x ∷ xs) value (suc n) e = slice-end xs value n (omega arith)

module _ (P : ThirdParty) (C : Chrono) where
  -- The gRPC transport in front of a server, for calls that do not overlap: whether it is closed, and
  -- the server.
  abbrev pub over_grpc : ClientTransport (Bool × SystemState P C)
  over_grpc = record {
    call = λ c t.
        if t.0
        then (unexpected client_closed, t)
        else (let r = remote P C t.0 t.1 c in (r.0, (t.0, r.1)));
    close = λ t. (true, t.1);
  }

  -- A client that is not closed meets the core.
  pub call-perform :
      (s : SystemState P C) (c : Call)
      → over_grpc.call c (false, s) ≡ (let r = perform P C s c in (across r.0, (false, r.1)))
  call-perform s c = ap (λ r. (r.0, (false, r.1))) (remote-perform P C s c)

  -- What a client gets for what the core answers.
  abbrev got : {A B : Type 0} → (A → B) → Result A → Result B
  got f r = field_of f (across r)

  got_field :
      {B : Type 0} (s : SystemState P C) (c : Call) (f : Answer c → B)
      → (project f (over_grpc.call c (false, s))).0 ≡ got f (perform P C s c).0
  got_field s c f = ap (λ r. (project f r).0) (call-perform s c)

  -- After a client has set a key, every client gets that value of the key; of every other key it gets
  -- what it got before. This holds through the requests, the server and the responses.
  pub map_get-map_set :
      (s : SystemState P C) (key value other : String)
      → (map_get over_grpc other (map_set over_grpc key value (false, s)).1).0
        ≡ (if key == other then ok value else (map_get over_grpc other (false, s)).0)
  unfolding perform
  map_get-map_set s key value other =
      let set_request = SystemState.map_set (record { key = key; value = value }) in
      let get_request = SystemState.map_get (record { key = other }) in
      let field = λ (r : MapGetResponse). r.value in
      ap (λ t. (map_get over_grpc other t).0) (ap (λ r. r.1) (call-perform s set_request))
      ∙ got_field (perform P C s set_request).1 get_request field
      ∙ ap (got field)
          (get-set P s.map (record { key = key; value = value }) (record { key = other }))
      ∙ elim (Bool-cases (key == other)) [
        | inl same ↦ rw same refl
        | inr different ↦ rw different (sym (got_field s get_request field))
      ]

  pub journal_size_lem :
      (s : SystemState P C) (key : String)
      → (journal_size over_grpc key (false, s)).0 ≡ ok (length (journal P s.journal_map key))
  unfolding perform
  journal_size_lem s key =
      let field = λ (r : JournalSizeResponse). r.size in
      got_field s (SystemState.journal_size (record { key = key })) field
      ∙ ap (got field) (size-length P s.journal_map (record { key = key }))

  journal_read_lem :
      (s : SystemState P C) (key : String) (start end : ℕ)
      → (journal_read over_grpc key start end (false, s)).0
        ≡ ok (slice (journal P s.journal_map key) start end)
  unfolding perform
  journal_read_lem s key start end =
      let field = λ (r : JournalReadResponse). r.entry in
      got_field s (SystemState.journal_read (record { key = key; start = start; end = end })) field
      ∙ ap (got field) (read-slice P s.journal_map (record { key = key; start = start; end = end }))

  -- After a client has appended to a journal, every client reads the value at the end of the journal,
  -- which is one entry longer.
  pub journal_read-journal_append :
      (s : SystemState P C) (key value : String) (n : ℕ)
      → (journal_size over_grpc key (false, s)).0 ≡ ok n
      → ((journal_size over_grpc key (journal_append over_grpc key value (false, s)).1).0
          ≡ ok (suc n))
        × ((journal_read over_grpc key n
              (suc n)
              (journal_append over_grpc key value (false, s)).1).0
            ≡ ok (value ∷ []))
  unfolding perform
  journal_read-journal_append s key value n sized =
      let request : JournalAppendRequest = record { key = key; value = value } in
      let after = (perform P C s (SystemState.journal_append request)).1 in
      let moved = ap (λ r. r.1) (call-perform s (SystemState.journal_append request)) in
      let old = journal P s.journal_map key in
      let was : length old ≡ n = ok-inj (sym (journal_size_lem s key) ∙ sized) in
      let now : journal P after.journal_map key ≡ push_back old value =
        ground (arith, journal-append P s.journal_map request key, eq_iff key key) in
      (
        ap (λ t. (journal_size over_grpc key t).0) moved
            ∙ journal_size_lem after key
            ∙ ap (λ (j : List String). ok (length j)) now
            ∙ ap ok (length-push_back old value ∙ ap suc was),
        ap (λ t. (journal_read over_grpc key n (suc n) t).0) moved
            ∙ journal_read_lem after key n (suc n)
            ∙ ap (λ j. ok (slice j n (suc n))) now
            ∙ ap ok (slice-end old value n was),
      )
