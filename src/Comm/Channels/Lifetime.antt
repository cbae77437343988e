-- ===== src/Comm/Channels/Lifetime.antt =====
-- Comms and captures of comm_state.rs over a whole history of messages.
use runt.Prelude.{
  String, true, none, some, List, [], ◌∷◌, ◌≡◌, ◌≢◌, arith, string_eq, ℕ, ◌∙◌, contains, is_some,
  Option-cases, inl, inr,
}
use runt.Prelude.Map.{get, get-remove, get-insert}
use runt.Json.{Json}
use runt.Comm.{clear_capture_for_widget, get_capture_widget}
use runt.Comm.Routing.{
  IsRouted, clear-IsRouted, change-IsRouted, captures_of_get, clear_captures, change_captures_of,
}
use runt.Comm.Channels.{
  CommState, CommEntry, Op, opens, updates, closes, clears, new, step, run, on_comm_open,
  on_comm_update, on_comm_close, opened, with_state, merge_state, change_captures, msg_id_change,
}

module _ (json : Json) where
  -- The captures are routed, and only open comms capture.
  pub record IsLive (s : CommState json) : Type 0 where
    pub routed : IsRouted s.captures
    pub open_when_capturing :
        (w m : String) → get w s.captures.widget_captures ≡ some m → is_some (get w s.comms) ≡ true

  IsRouted-none : IsRouted (record { capture_contexts = []; widget_captures = [] })
  unfolding get contains
  IsRouted-none = record {
    listed = λ w m h. cc;
    owned = λ w m h. cc;
    no_empty_stack = λ m h. cc;
    distinct = λ m. tt;
  }

  pub new-IsLive : IsLive (new json)
  unfolding new get
  new-IsLive = record { routed = IsRouted-none; open_when_capturing = λ w m h. cc }

  open-IsLive :
      (i t : String) (d : json.Value) (b : List (List ℕ)) (s : CommState json)
      → IsLive s
      → IsLive (on_comm_open json i t d b s)
  unfolding on_comm_open
  open-IsLive i t d b s v =
      let e : CommEntry json = record { snapshot = opened json i t d b; seq = s.next_seq } in
      record {
        routed = v.routed;
        open_when_capturing =
            λ w m h. ground (arith, v.open_when_capturing w m h, get-insert w i e s.comms);
      }

  -- An update opens and closes no comm, and changes the captures only of an open one.
  still_open :
      (w i : String) (d : json.Value) (s : CommState json)
      → is_some (get w (on_comm_update json i d s).comms) ≡ is_some (get w s.comms)
  unfolding on_comm_update
  still_open w i d s = elim (Option-cases (get i s.comms)) [
    | inl e ↦ ground (arith, e)
    | inr (x, e) ↦
        rw (e, on_comm_update)
          (ground (
            arith,
            e,
            get-insert w i (with_state json (merge_state json x.snapshot.state d) x) s.comms,
            string_eq.same_iff i w,
          ))
  ]

  open_when_changed :
      (i : String) (d : json.Value) (s : CommState json) (m : String)
      → msg_id_change json i d s ≡ some m
      → is_some (get i s.comms) ≡ true
  unfolding msg_id_change
  open_when_changed i d s m h = ground arith

  update-IsLive :
      (i : String) (d : json.Value) (s : CommState json)
      → IsLive s
      → IsLive (on_comm_update json i d s)
  unfolding on_comm_update
  update-IsLive i d s v = elim (Option-cases (msg_id_change json i d s)) [
    | inl e ↦ record {
      routed = rw (e, change_captures) v.routed;
      open_when_capturing =
          λ w m h. still_open w i d s ∙ v.open_when_capturing w m (rw (← h, e, change_captures));
    }
    | inr (n, e) ↦ record {
      routed = rw (e, change_captures) (change-IsRouted i n s.captures v.routed);
      open_when_capturing = λ w m h.
          still_open w i d s
          ∙ ground (
            arith,
            e,
            v.open_when_capturing w m,
            open_when_changed i d s n e,
            change_captures_of w i n s.captures,
            string_eq.same_iff i w,
          );
    }
  ]

  close-IsLive : (i : String) (s : CommState json) → IsLive s → IsLive (on_comm_close json i s)
  unfolding on_comm_close
  close-IsLive i s v = record {
    routed = clear-IsRouted i s.captures v.routed;
    open_when_capturing = λ w m h. ground (
      arith,
      v.open_when_capturing w m,
      get-remove w i s.comms,
      clear_captures w i s.captures,
      string_eq.same_iff i w,
    );
  }

  step-IsLive : (o : Op json) (s : CommState json) → IsLive s → IsLive (step json o s)
  unfolding step
  step-IsLive (opens i t d b) s v = open-IsLive i t d b s v
  step-IsLive (updates i d) s v = update-IsLive i d s v
  step-IsLive (closes i) s v = close-IsLive i s v
  step-IsLive clears s v = record {
    routed = IsRouted-none;
    open_when_capturing = λ w m h. unfold get in cc;
  }

  -- Every history of comm messages keeps the two capture dictionaries in agreement, and lets only open
  -- comms capture.
  pub run-IsLive : (os : List (Op json)) (s : CommState json) → IsLive s → IsLive (run json os s)
  unfolding run
  run-IsLive [] s v = v
  run-IsLive (o ∷ os) s v = run-IsLive os (step json o s) (step-IsLive o s v)

  -- After any history of messages from the empty state, a widget that receives a message's outputs is
  -- an open comm.
  pub receiver_is_open :
      (os : List (Op json)) (m w : String)
      → get_capture_widget m (run json os (new json)).captures ≡ some w
      → is_some (get w (run json os (new json)).comms) ≡ true
  receiver_is_open os m w h =
      let v = run-IsLive os (new json) new-IsLive in
      v.open_when_capturing w m (captures_of_get m w _ v.routed h)

  -- A closed comm is gone, and receives no output.
  closed_receives_nothing :
      (i m : String) (s : CommState json)
      → IsLive s
      → (get i (on_comm_close json i s).comms ≡ none)
        × (get_capture_widget m (on_comm_close json i s).captures ≢ some i)
  unfolding on_comm_close
  closed_receives_nothing i m s v = (
    ground (arith, get-remove i i s.comms, string_eq.same_iff i i),
    λ h. ground (
      arith,
      captures_of_get m i (clear_capture_for_widget i s.captures)
          (clear-IsRouted i s.captures v.routed) h,
      clear_captures i i s.captures,
      string_eq.same_iff i i,
    ),
  )
