-- ===== src/Commands/Rollback.antt =====
-- About the loop of `setup` that sets the drivers up, and undoes that after a failure.
use netavark.Prelude.{
  ◌≡◌, refl, ap, ◌∙◌, ◌⊎◌, inl, inr, Option, List, [], ◌∷◌, ◌++◌, ok, err, Result-cases,
}
use mathlib.Core.List.{append_assoc, append-nil}
use netavark.Prelude.Dict.{Dict, insert}
use netavark.Error.{NetavarkError, NetavarkResult}
use netavark.Network.Types.{StatusBlock}
use netavark.Commands.{AardvarkEntry, System, push_some, undo, setup_drivers}

abbrev pub Output : Type 0
Output = StatusBlock × Option AardvarkEntry

-- The drivers are set up in turn, each with success.
pub data SetsUp (T : System) : T.State → List T.Driver → List Output → T.State → Type 0 where
  nothing : {s : T.State} → SetsUp T s [] [] s
  next :
      {driver : T.Driver} {drivers : List T.Driver} {output : Output} {outputs : List Output}
      {s t u : T.State}
      → T.setup driver s ≡ (ok output, t)
      → SetsUp T t drivers outputs u
      → SetsUp T s (driver ∷ drivers) (output ∷ outputs) u

-- The drivers are taken down in turn, and each of these calls may succeed or fail.
pub data TakesDown (T : System) : T.State → List T.Driver → T.State → Type 0 where
  nothing : {s : T.State} → TakesDown T s [] s
  next :
      {driver : T.Driver} {drivers : List T.Driver} {result : NetavarkResult Unit} {s t u : T.State}
      → T.teardown driver s ≡ (result, t)
      → TakesDown T t drivers u
      → TakesDown T s (driver ∷ drivers) u

module _ (T : System) where
  -- The response with the status of each driver under its network's name.
  abbrev pub responses : List T.Driver → List Output → Dict StatusBlock → Dict StatusBlock
  responses [] outputs r = r
  responses (driver ∷ drivers) [] r = r
  responses (driver ∷ drivers) ((status, entry) ∷ outputs) r =
      responses drivers outputs (insert (T.network_name driver) status r)

  -- The DNS entries of those that have one.
  abbrev pub entries_of : List Output → List AardvarkEntry → List AardvarkEntry
  entries_of [] entries = entries
  entries_of ((status, entry) ∷ outputs) entries = entries_of outputs (push_some entries entry)

  -- All drivers are set up, and their outputs collected.
  abbrev pub IsComplete :
      List T.Driver → List T.Driver → Dict StatusBlock → List AardvarkEntry → T.State → Type 0
  IsComplete done drivers response entries s =
      (t : T.State) × (outputs : List Output) × SetsUp T s drivers outputs t
      × (setup_drivers T done drivers response entries s
          ≡ (ok (responses drivers outputs response, entries_of outputs entries), t))

  -- A driver fails behind some that are set up; those and the ones before are taken down again.
  abbrev pub IsUndone :
      List T.Driver → List T.Driver → Dict StatusBlock → List AardvarkEntry → T.State → Type 0
  IsUndone done drivers response entries s =
      (before : List T.Driver) × (driver : T.Driver) × (behind : List T.Driver) × (outputs : List
        Output)
      × (t t' t'' : T.State) × (e : NetavarkError) × (drivers ≡ before ++ (driver ∷ behind))
      × SetsUp T s before outputs t
      × (T.setup driver t ≡ (err e, t'))
      × TakesDown T t' (done ++ before) t''
      × (setup_drivers T done drivers response entries s ≡ (err e, t''))

  undo-TakesDown :
      (drivers : List T.Driver) (s : T.State) → TakesDown T s drivers (undo T drivers s)
  unfolding undo
  undo-TakesDown [] s = nothing
  undo-TakesDown (driver ∷ drivers) s = next refl (undo-TakesDown drivers (T.teardown driver s).1)

  setup_drivers_next :
      (done drivers : List T.Driver) (driver : T.Driver) (response : Dict StatusBlock)
      (entries : List AardvarkEntry) (s : T.State) (status : StatusBlock)
      (entry : Option AardvarkEntry)
      → (T.setup driver s).0 ≡ ok (status, entry)
      → setup_drivers T done (driver ∷ drivers) response entries s
        ≡ setup_drivers T
            (done ++ (driver ∷ []))
            drivers
            (insert (T.network_name driver) status response)
            (push_some entries entry)
            (T.setup driver s).1
  unfolding setup_drivers
  setup_drivers_next done drivers driver response entries s status entry h =
      rw (h, setup_drivers) refl

  setup_drivers_nothing :
      (done : List T.Driver) (response : Dict StatusBlock) (entries : List AardvarkEntry)
      (s : T.State)
      → setup_drivers T done [] response entries s ≡ (ok (response, entries), s)
  unfolding setup_drivers
  setup_drivers_nothing done response entries s = refl

  setup_drivers_fails :
      (done drivers : List T.Driver) (driver : T.Driver) (response : Dict StatusBlock)
      (entries : List AardvarkEntry) (s : T.State) (e : NetavarkError)
      → (T.setup driver s).0 ≡ err e
      → setup_drivers T done (driver ∷ drivers) response entries s
        ≡ (err e, undo T done (T.setup driver s).1)
  unfolding setup_drivers
  setup_drivers_fails done drivers driver response entries s e h = rw (h, setup_drivers) refl

  -- The drivers are set up in their order, and one of two things happens. Each succeeds: then
  -- the response has the status of each, and the entries are those of the drivers that have one.
  -- Or one is the first to fail: then its error is the result, those behind it are not touched,
  -- and every one before it is taken down, in order, from the state that the failed call left, each whether the
  -- one before it succeeds or not; what that gives is the state at the end.
  pub setup_drivers_lem :
      (done drivers : List T.Driver) (response : Dict StatusBlock) (entries : List AardvarkEntry)
      (s : T.State)
      → IsComplete done drivers response entries s ⊎ IsUndone done drivers response entries s
  setup_drivers_lem done [] response entries s =
      inl (s, [], nothing, setup_drivers_nothing done response entries s)
  setup_drivers_lem done (driver ∷ drivers) response entries s =
      let t = (T.setup driver s).1 in
      elim (Result-cases (T.setup driver s).0) [
        | inl ((status, entry), e) ↦
            let h : T.setup driver s ≡ (ok (status, entry), t) = ap (λ r. (r, t)) e in
            let first = setup_drivers_next done drivers driver response entries s status entry e in
            elim (setup_drivers_lem (done ++ (driver ∷ [])) drivers
              (insert (T.network_name driver) status response) (push_some entries entry) t) [
                | inl (u, outputs, ups, rest) ↦
                    inl (u, (status, entry) ∷ outputs, next h ups, first ∙ rest)
                | inr (before, d, behind, outputs, u, u', u'', f, split, ups, fails, downs, rest) ↦
                    inr (
                      driver ∷ before,
                      d,
                      behind,
                      (status, entry) ∷ outputs,
                      u,
                      u',
                      u'',
                      f,
                      ap (λ ds. driver ∷ ds) split,
                      next h ups,
                      fails,
                      rw (← append_assoc done (driver ∷ []) before) downs,
                      first ∙ rest,
                    )
              ]
        | inr (f, e) ↦
            let h : T.setup driver s ≡ (err f, t) = ap (λ r. (r, t)) e in
            inr (
              [],
              driver,
              drivers,
              [],
              s,
              t,
              undo T done t,
              f,
              refl,
              nothing,
              h,
              rw (append-nil done) (undo-TakesDown done t),
              setup_drivers_fails done drivers driver response entries s f e,
            )
      ]
