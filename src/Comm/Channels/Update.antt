-- ===== src/Comm/Channels/Update.antt =====
-- What an update message does to a comm's state (comm_state.rs).
use runt.Prelude.{String, Option, none, some, [], ◌∷◌, ◌≡◌, ◌≢◌, refl, arith, string_eq}
use runt.Prelude.Map.{Map, get, insert, get-insert}
use runt.Prelude.Distinct.{Distinct, keys, get_absent}
use runt.Json.{Json}
use runt.Comm.Channels.{CommState, CommEntry, merge, merge_state, with_state, on_comm_update}

module _ {ℓ} {A : Type ℓ} where
  abbrev pub or_else : Option A → Option A → Option A
  or_else none d = d
  or_else (some a) d = some a

module _ (json : Json) where
  get-merge :
      (d m : Map String json.Value) (k : String)
      → Distinct (keys d)
      → get k (merge json d m) ≡ or_else (get k d) (get k m)
  unfolding merge get
  get-merge [] m k h = refl
  get-merge ((j, v) ∷ d) m k h = ground (
    arith,
    get-merge d (insert j v m) k h.1,
    get-insert k j v m,
    get_absent j d,
    string_eq.same_iff j k,
  )

  -- An update whose delta is an object, on an open comm whose state is one, keeps the comm's place in
  -- the replay order; each key that the delta has takes the delta's value, every other key keeps its
  -- own, and no other comm changes.
  update_merges :
      (i : String) (delta : json.Value) (s : CommState json) (e : CommEntry json)
      (m d : Map String json.Value)
      → get i s.comms ≡ some e
      → json.as_object e.snapshot.state ≡ some m
      → json.as_object delta ≡ some d
      → Distinct (keys d)
      → (e' : CommEntry json) × (get i (on_comm_update json i delta s).comms ≡ some e')
        × (e'.seq ≡ e.seq)
        × ((k : String) → json.get k e'.snapshot.state ≡ or_else (get k d) (get k m))
        × ((j : String) → j ≢ i → get j (on_comm_update json i delta s).comms ≡ get j s.comms)
  unfolding on_comm_update
  update_merges i delta s e m d here state_is delta_is h =
      let e' : CommEntry json = with_state json (merge_state json e.snapshot.state delta) e in
      (
        e',
        ground (arith, get-insert i i e' s.comms, string_eq.same_iff i i),
        refl,
        λ k. ground (arith, json.get-object k (merge json d m), get-merge d m k h),
        λ j other. ground (arith, get-insert j i e' s.comms, string_eq.same_iff i j),
      )
