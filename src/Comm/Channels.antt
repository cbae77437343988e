-- ===== src/Comm/Channels.antt =====
-- The rest of comm_state.rs: the dictionary of open comms, with the snapshots for new clients.
pub mod Update
pub mod Replay
pub mod Lifetime
mod Tests
use runt.Prelude.{
  ℕ, String, ◌+◌, ◌%◌, ◌^◌, Bool, false, Option, none, some, List, [], ◌∷◌, ◌==◌, string_eq, leb,
  if◌then◌else◌, is_empty, unwrap_or,
}
use runt.Prelude.Map.{Map}
use runt.Prelude.Map
use runt.Json.{Json}
use runt.Comm.{Captures, and_then, clear_capture_for_widget, on_output_widget_msg_id_change}

-- `AtomicU64`.
abbrev pub u64_mod : ℕ
u64_mod = 2 ^ 64

module _ (json : Json) where
  open json use {Value}

  pub record CommSnapshot : Type 0 where
    pub comm_id : String
    pub target_name : String
    pub state : Value
    pub model_module : Option String
    pub model_name : Option String
    pub buffers : List (List ℕ)

  pub record CommEntry : Type 0 where
    pub snapshot : CommSnapshot
    pub seq : ℕ

  pub record CommState : Type 0 where
    pub comms : Map String CommEntry
    pub next_seq : ℕ
    pub captures : Captures

  unfoldable pub new : CommState
  new = record {
    comms = [];
    next_seq = 0;
    captures = record { capture_contexts = []; widget_captures = [] };
  }

  unfoldable pub is_output_widget : CommEntry → Bool
  is_output_widget e = elim e.snapshot.model_name [ none ↦ false | some n ↦ n == "OutputModel" ]

  -- The snapshot that `on_comm_open` makes of a message's `data`.
  unfoldable pub opened : String → String → Value → List (List ℕ) → CommSnapshot
  opened comm_id target_name data' buffers =
      let state = unwrap_or (json.get "state" data') (json.object []) in
      record {
        comm_id = comm_id;
        target_name = target_name;
        state = state;
        model_module = and_then (json.get "_model_module" state) json.as_str;
        model_name = and_then (json.get "_model_name" state) json.as_str;
        buffers = buffers;
      }

  unfoldable pub on_comm_open : String → String → Value → List (List ℕ) → CommState → CommState
  unfolding opened
  on_comm_open comm_id target_name data' buffers s = record s {
    comms =
        Map.insert comm_id
          (record { snapshot = opened comm_id target_name data' buffers; seq = s.next_seq })
          s.comms;
    next_seq = (s.next_seq + 1) % u64_mod;
  }

  -- The new msg_id, if the update gives one to an Output widget.
  unfoldable pub msg_id_change : String → Value → CommState → Option String
  unfolding is_output_widget
  msg_id_change comm_id state_delta s = elim (Map.get comm_id s.comms) [
    | none ↦ none
    | some entry ↦
        if is_output_widget entry
        then and_then (json.get "msg_id" state_delta) json.as_str
        else none
  ]

  -- `for (key, value) in delta { existing.insert(key, value) }`.
  unfoldable pub merge : Map String Value → Map String Value → Map String Value
  merge [] existing = existing
  merge ((key, value) ∷ delta) existing = merge delta (Map.insert key value existing)

  -- Nothing is merged unless both values are objects.
  unfoldable pub merge_state : Value → Value → Value
  unfolding merge
  merge_state existing delta = elim (json.as_object existing) [
    | none ↦ existing
    | some m ↦ elim (json.as_object delta) [ none ↦ existing | some d ↦ json.object (merge d m) ]
  ]

  abbrev pub with_state : Value → CommEntry → CommEntry
  with_state v e = record e { snapshot = record e.snapshot { state = v } }

  abbrev pub change_captures : String → Option String → Captures → Captures
  change_captures comm_id none c = c
  change_captures comm_id (some new_msg_id) c = on_output_widget_msg_id_change comm_id new_msg_id c

  unfoldable pub on_comm_update : String → Value → CommState → CommState
  unfolding msg_id_change merge_state
  on_comm_update comm_id state_delta s = record s {
    captures = change_captures comm_id (msg_id_change comm_id state_delta s) s.captures;
    comms = elim (Map.get comm_id s.comms) [
      | none ↦ s.comms
      | some e ↦
          Map.insert comm_id (with_state (merge_state e.snapshot.state state_delta) e) s.comms
    ];
  }

  unfoldable pub on_comm_close : String → CommState → CommState
  on_comm_close comm_id s = record s {
    captures = clear_capture_for_widget comm_id s.captures;
    comms = Map.remove comm_id s.comms;
  }

  abbrev pub entries : Map String CommEntry → List CommEntry
  entries [] = []
  entries ((k, e) ∷ m) = e ∷ entries m

  -- `sort_by_key(|e| e.seq)`, which is stable.
  unfoldable pub insert_by_seq : CommEntry → List CommEntry → List CommEntry
  insert_by_seq e [] = e ∷ []
  insert_by_seq e (f ∷ fs) = if leb e.seq f.seq then e ∷ f ∷ fs else f ∷ insert_by_seq e fs

  unfoldable pub sort_by_seq : List CommEntry → List CommEntry
  unfolding insert_by_seq
  sort_by_seq [] = []
  sort_by_seq (e ∷ es) = insert_by_seq e (sort_by_seq es)

  abbrev pub snapshots : List CommEntry → List CommSnapshot
  snapshots [] = []
  snapshots (e ∷ es) = e.snapshot ∷ snapshots es

  unfoldable pub get_all : CommState → List CommSnapshot
  unfolding sort_by_seq
  get_all s = snapshots (sort_by_seq (entries s.comms))

  unfoldable pub clear : CommState → CommState
  clear s = record {
    comms = [];
    next_seq = 0;
    captures = record { capture_contexts = []; widget_captures = [] };
  }

  unfoldable pub has_none : CommState → Bool
  has_none s = is_empty s.comms

  pub data Op : Type 0 where
    opens : String → String → Value → List (List ℕ) → Op
    updates : String → Value → Op
    closes : String → Op
    clears : Op

  unfoldable pub step : Op → CommState → CommState
  unfolding on_comm_open on_comm_update on_comm_close clear
  step (opens i t d b) s = on_comm_open i t d b s
  step (updates i d) s = on_comm_update i d s
  step (closes i) s = on_comm_close i s
  step clears s = clear s

  unfoldable pub run : List Op → CommState → CommState
  unfolding step
  run [] s = s
  run (o ∷ os) s = run os (step o s)
