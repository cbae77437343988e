-- ===== src/NotebookDoc/Outputs.antt =====
-- The operations on the outputs of one cell by their places: replacement, the output of a stream, and a
-- new list of outputs.
use runt.Prelude.{
  ℕ, zero, suc, ◌<◌, String, Bool, false, some, List, [], ◌∷◌, nat_eq, string_eq, ltb,
  if◌then◌else◌, length, ◌≡◌, inl, inr, refl, ap, sym, ◌∙◌, subst, arith, Bool-cases, ltb→lt,
}
use runt.Prelude.Positions.{change_at}
use runt.Automerge.{Automerge, Result, done, list_node, length_of}
use runt.NotebookDoc.{CellSnapshot, or_false, then_true, cell_object, list_id, replace_output}
use runt.NotebookDoc.View.{Held, snapshots, strings, IsCell, Holds, list_id-IsCell}
use runt.NotebookDoc.Located.{Changes, change_one}
use runt.NotebookDoc.Edits.{then_true-of, opened, or_false-none, or_false-some, outputs_written}
use runt.NotebookDoc.Objects.{Writes, length_of-outputs, length-strings, change_at-strings}

module _ (am : Automerge) where
  open am use {Doc, ObjId, node}

  change_at_beyond :
      (k : ℕ) (s : String) (ss : List String)
      → ltb k (length ss) ≡ false
      → change_at (λ _. s) k ss ≡ ss
  change_at_beyond k s [] h = refl
  change_at_beyond zero s (t ∷ ss) h = ground (arith, h)
  change_at_beyond (suc k) s (t ∷ ss) h = ap (◌∷◌ t) (change_at_beyond k s ss (ground (arith, h)))

  abbrev pub with_replaced : ℕ → String → CellSnapshot → CellSnapshot
  with_replaced k output c = record c { outputs = change_at (λ _. output) k c.outputs }

  -- Writing an output in its place.
  pub put_at_law :
      (d : Doc) (o : ObjId) (outputs : List String) (k : ℕ) (output : String)
      → node d o ≡ some (list_node (strings am outputs))
      → k < length outputs
      → ((am.put_at o k output d).0 ≡ done tt)
        × Writes am d
            (am.put_at o k output d).1
            o
            (list_node (strings am (change_at (λ _. output) k outputs)))
  put_at_law d o outputs k output h lt =
      let bound : k < length (strings am outputs) = omega (arith, lt, length-strings am outputs) in
      let law = am.node-put_at o k output d (strings am outputs) h bound in
      (
        law.0,
        subst (λ vs. Writes am d (am.put_at o k output d).1 o (list_node vs))
            (change_at-strings am k output outputs) (law.1),
      )

  -- The output at a place is replaced if there is one, and the result says so.
  pub replace_output-Changes :
      (d : Doc) (ps : List (Held am)) (id : String) (k : ℕ) (output : String)
      → Holds am d ps
      → Changes am
          (replace_output am id k output d)
          false
          (λ c. ltb k (length c.outputs))
          (with_replaced k output)
          id
          (snapshots am ps)
  unfolding replace_output
  replace_output-Changes d ps id k output h =
      let inner : ObjId → Result Bool × Doc = λ l.
        if ltb k (length_of am d l)
        then then_true am (am.put_at l k output d)
        else (done false, d) in
      let body : ObjId → Result Bool × Doc = λ o. or_false am (list_id am d o "outputs") d inner in
      change_one am d ps h id (replace_output am id k output d) false
        (λ c. ltb k (length c.outputs)) (with_replaced k output)
        (or_false-none am (cell_object am d id) d body)
        (λ i c cell apart found.
          let e =
            or_false-some am (cell_object am d id) d body i.obj found
            ∙ or_false-some am (list_id am d i.obj "outputs") d inner i.outputs
                (list_id-IsCell am d i c cell)
            ∙ ap
                (λ n.
                  if ltb k n
                  then then_true am (am.put_at i.outputs k output d)
                  else (done false, d))
                (length_of-outputs am d i.outputs c.outputs cell.node_outputs) in
          elim (Bool-cases (ltb k (length c.outputs))) [
            | inl within ↦
                let call = am.put_at i.outputs k output d in
                let law =
                  put_at_law d i.outputs c.outputs k output cell.node_outputs
                    (ltb→lt k (length c.outputs) within) in
                let (keeps, cell') =
                  outputs_written am d (call.1) i c _ (change_at (λ _. output) k c.outputs) apart
                    cell (law.1) refl in
                opened am d i c (replace_output am id k output d) (call.1)
                  (ltb k (length c.outputs)) (with_replaced k output)
                  (e
                    ∙ ap (λ b. if b then then_true am call else (done false, d)) within
                    ∙ then_true-of am call (law.0)
                    ∙ ap (λ b. (done b, call.1)) (sym within))
                  keeps cell'
            | inr beyond ↦
                opened am d i c (replace_output am id k output d) d (ltb k (length c.outputs))
                  (with_replaced k output)
                  (e
                    ∙ ap
                        (λ b.
                          if b
                          then then_true am (am.put_at i.outputs k output d)
                          else (done false, d))
                        beyond
                    ∙ ap (λ b. (done b, d)) (sym beyond))
                  (λ p free there. refl)
                  (subst (IsCell am d i)
                    (ap (λ os. record c { outputs = os })
                      (sym (change_at_beyond k output c.outputs beyond)))
                    cell)
          ])
