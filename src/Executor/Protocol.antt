-- ===== src/Executor/Protocol.antt =====
-- What the pool may see of one run: the stages of a run, and the calls that each of them allows.
use engineering_worker_pool.Base.{
  ℕ, Bool, true, false, not, ◌&&◌, List, [], ◌∷◌, Option, none, some, Text, same, ◌==◌,
  if◌then◌else◌,
}
use engineering_worker_pool.Executor.Run.{
  Action, Event, done, lost, acquires_lock, releases_lock, reads_receipt, writes_receipt,
  checks_workspace, gets_task, gets_checkpoint, preflights, claims, starts, builds, validates,
  materializes, publishes, verifies, records, submits, completes, fails, blocks, Artifact, Entry,
  without, publishing, unsure, settled,
}

pub data Stage : Type 0 where
  -- nothing is claimed, and nothing can have changed
  unclaimed : Stage
  -- the task may be held
  held building built validated recorded_check : Stage
  -- an artifact of an earlier attempt is in the tree, and then read back
  resumed reassured : Artifact → Stage
  -- the effect of a publication is announced, then tried, then read back, then confirmed
  announced published : Text → Stage
  assured : Text → Artifact → Stage
  confirmed : Text → Stage
  -- the effect is reported unknown
  doubtful : Stage
  -- a call of the work raised
  broken : Stage
  -- the validator has read the builder's artifact back
  checked checked_valid : Artifact → Stage
  -- the work is handed in; the run has failed or blocked the task
  handed_in given_up : Stage

abbrev pub same_artifact : Artifact → Artifact → Bool
same_artifact a b =
    same a.artifact_kind b.artifact_kind
    && same a.artifact_ref b.artifact_ref
    && same a.artifact_sha256 b.artifact_sha256

-- A task may be failed wherever no publication is in doubt.
abbrev pub is_failable : Stage → Bool
is_failable unclaimed = false
is_failable (published e) = false
is_failable (assured e a) = false
is_failable doubtful = false
is_failable given_up = false
is_failable _ = true

abbrev pub names_artifact : Option Artifact → Artifact → Bool
names_artifact none b = false
names_artifact (some a) b = same_artifact a b

abbrev pub announces : Entry → Option Text
announces e = elim e.effect [
  | publishing x ↦ if e.sequence == 1 then some x else none
  | without ↦ none
  | unsure x ↦ none
  | settled x ↦ none
]

abbrev pub doubts : Entry → Text → Bool
doubts e x = elim e.effect [
  | unsure y ↦ e.sequence == 2 && same y x
  | without ↦ false
  | publishing y ↦ false
  | settled y ↦ false
]

-- The confirmed effect of an entry that names the artifact and has the given number.
abbrev pub settles : Entry → Artifact → ℕ → Option Text
settles e a n = elim e.effect [
  | settled x ↦ if names_artifact e.artifact a && e.sequence == n then some x else none
  | without ↦ none
  | publishing x ↦ none
  | unsure x ↦ none
]

abbrev pub checks_out : Entry → Artifact → Bool
checks_out e a = elim e.effect [
  | without ↦ names_artifact e.artifact a && e.sequence == 1
  | publishing x ↦ false
  | unsure x ↦ false
  | settled x ↦ false
]

abbrev pub when : Bool → Stage → Option Stage
when true s = some s
when false s = none

abbrev pub to_stage : (Text → Stage) → Option Text → Option Stage
to_stage f none = none
to_stage f (some x) = some (f x)

-- The entry that an effect confirmed must be the one announced.
abbrev pub confirms : Text → Option Text → Option Stage
confirms x none = none
confirms x (some y) = when (same x y) (confirmed y)

abbrev pub after_record : Stage → Entry → Option Stage
after_record built e = to_stage announced (announces e)
after_record (published x) e = when (doubts e x) doubtful
after_record (assured x a) e = confirms x (settles e a 2)
after_record (reassured a) e = to_stage confirmed (settles e a 1)
after_record (checked_valid a) e = when (checks_out e a) recorded_check
after_record _ e = none

abbrev pub is_unclaimed : Stage → Bool
is_unclaimed unclaimed = true
is_unclaimed _ = false

-- Where a call leads that raised, by where it leads from and where it would have led. A publication
-- may have happened; a claim is not known to be held.
abbrev pub broken_by : Stage → Action → Stage → Stage
broken_by s publishes t = t
broken_by (published x) (verifies a) t = published x
broken_by unclaimed (verifies a) t = unclaimed
broken_by s (verifies a) t = broken
broken_by (published x) (records e) t = t
broken_by s (records e) t = broken
broken_by s claims t = given_up
broken_by s starts t = broken
broken_by s builds t = broken
broken_by s validates t = broken
broken_by s (materializes a) t = broken
broken_by s (submits sha) t = broken
broken_by s completes t = broken
broken_by s x t = t

-- A run of a fenced task names its effect after the task and the commit.
module _ (fenced : Bool) (effect_of : Text → Text) where
  abbrev pub after_submit : Stage → Text → Option Stage
  after_submit built sha = when (not fenced) handed_in
  after_submit (confirmed x) sha = when (same x (effect_of sha)) handed_in
  after_submit _ sha = none

  abbrev pub after_complete : Stage → Option Stage
  after_complete validated = when (not fenced) handed_in
  after_complete recorded_check = some handed_in
  after_complete _ = none

  abbrev pub after_verify : Stage → Artifact → Option Stage
  after_verify unclaimed a = some unclaimed
  after_verify held a = some (checked a)
  after_verify (published x) a = some (assured x a)
  after_verify (resumed b) a = when (same_artifact b a) (reassured a)
  after_verify _ a = none

  -- The stage after a call, if the stage before allows it.
  unfoldable pub next_stage : Stage → Action → Option Stage
  next_stage s acquires_lock = when (is_unclaimed s) unclaimed
  next_stage s releases_lock = some s
  next_stage s reads_receipt = when (is_unclaimed s) unclaimed
  next_stage s checks_workspace = when (is_unclaimed s) unclaimed
  next_stage s gets_task = when (is_unclaimed s) unclaimed
  next_stage s gets_checkpoint = when (is_unclaimed s) unclaimed
  next_stage s preflights = when (is_unclaimed s) unclaimed
  next_stage s claims = when (is_unclaimed s) held
  next_stage s starts = elim s [ held ↦ some building | _ ↦ none ]
  next_stage s builds = elim s [ building ↦ some built | _ ↦ none ]
  next_stage s (materializes a) = elim s [ building ↦ some (resumed a) | _ ↦ none ]
  next_stage s validates = elim s [
    | held ↦ when (not fenced) validated
    | checked a ↦ some (checked_valid a)
    | _ ↦ none
  ]
  next_stage s publishes = elim s [ announced x ↦ some (published x) | _ ↦ none ]
  next_stage s (verifies a) = after_verify s a
  next_stage s (records e) = after_record s e
  next_stage s (submits sha) = after_submit s sha
  next_stage s completes = after_complete s
  next_stage s (fails c) = when (is_failable s) given_up
  next_stage s (blocks c) = elim s [
    | held ↦ when fenced given_up
    | doubtful ↦ some given_up
    | _ ↦ none
  ]
  next_stage s writes_receipt = elim s [ handed_in ↦ some handed_in | _ ↦ none ]

  -- The stage after a call that came back, or raised.
  unfoldable pub next_event : Stage → Event → Option Stage
  unfolding next_stage
  next_event s (done x) = next_stage s x
  next_event s (lost x) = elim (next_stage s x) [ none ↦ none | some t ↦ some (broken_by s x t) ]

  -- A log that the stages allow, from a stage on.
  unfoldable pub accepts : Stage → List Event → Bool
  unfolding next_event
  accepts s [] = true
  accepts s (x ∷ xs) = elim (next_event s x) [ none ↦ false | some t ↦ accepts t xs ]
