-- ===== src/Codemode/Compiled/Evaluates.antt =====
-- The literal of a plain value is evaluated to the value, in as many steps as it has expressions.
use zoen_gateway.Prelude.{ℕ, ◌+◌, ◌≤◌, ◌<◌, ◌≡◌, refl, Bool, true, ◌&&◌, Option, arith}
use zoen_gateway.Prelude.Text.{Text, text_eq_iff, text_lt_irrefl, text_lt_trans}
use zoen_gateway.Prelude.Effect.{ok}
use zoen_gateway.Prelude.Json.{Value, Items, Fields, insert_field}
use zoen_gateway.Core.Limits.{Limits}
use zoen_gateway.Codemode.Host.{CodeHost, Vm}
use zoen_gateway.Codemode.Eval.{Env, eval_expr, eval_object, eval_array, step, Runtime}
use zoen_gateway.Codemode.Compiled.{
  expr_of, exprs_of, props_of, size, items_size, fields_size, all_above, IsPlain, ArePlain,
  FieldsArePlain,
}

append_fields : Fields → Fields → Fields
append_fields Fields.end gs = gs
append_fields (Fields.field k v fs) gs = Fields.field k v (append_fields fs gs)

-- Every name of the first object is below every name of the second.
abbrev all_before : Fields → Fields → Bool
all_before Fields.end gs = true
all_before (Fields.field k v fs) gs = all_above k gs && all_before fs gs

insert_field-all_before :
    (k : Text) (v : Value) (fs gs : Fields)
    → all_before fs (Fields.field k v gs) ≡ true
    → insert_field k v fs ≡ append_fields fs (Fields.field k v Fields.end)
unfolding insert_field append_fields
insert_field-all_before k v Fields.end gs h = refl
insert_field-all_before k v (Fields.field j w fs) gs h = ground (
  arith,
  insert_field-all_before k v fs gs,
  text_eq_iff j k,
  text_lt_irrefl k,
  text_lt_trans k j k,
)

append_fields-end : (fs : Fields) → append_fields fs Fields.end ≡ fs
unfolding append_fields
append_fields-end Fields.end = refl
append_fields-end (Fields.field k v fs) = cc (append_fields-end fs)

append_fields_assoc :
    (fs : Fields) (k : Text) (v : Value) (gs : Fields)
    → append_fields (append_fields fs (Fields.field k v Fields.end)) gs
      ≡ append_fields fs (Fields.field k v gs)
unfolding append_fields
append_fields_assoc Fields.end k v gs = refl
append_fields_assoc (Fields.field j w fs) k v gs = cc (append_fields_assoc fs k v gs)

all_before-append_fields :
    (fs : Fields) (k : Text) (v : Value) (gs : Fields)
    → all_above k gs ≡ true
    → all_before fs (Fields.field k v gs) ≡ true
    → all_before (append_fields fs (Fields.field k v Fields.end)) gs ≡ true
unfolding append_fields
all_before-append_fields Fields.end k v gs a h = ground arith
all_before-append_fields (Fields.field j w fs) k v gs a h =
    ground (arith, all_before-append_fields fs k v gs)

module _ {W : Type 0} (host : CodeHost W) (limits : Limits) (env : Env)
    (number_of : Text → Option Text) where
  -- So many steps later.
  abbrev pub after : ℕ → Vm W → Vm W
  after n vm = record vm { steps = vm.steps + n }

  pub step-lt : (vm : Vm W) → vm.steps < 10000 → step vm ≡ (ok tt, after 1 vm)
  unfolding step
  step-lt vm h = ground arith

  mutual
    unfolding eval_expr expr_of size IsPlain append_fields

    pub eval_expr-value :
        (v : Value) (vm : Vm W)
        → IsPlain number_of v
        → vm.steps + size v ≤ 10000
        → eval_expr host limits env (expr_of v) vm ≡ (ok (Runtime.json v), after (size v) vm)
    eval_expr-value Value.null vm p h = rw (step-lt vm (omega arith)) refl
    eval_expr-value (Value.bool b) vm p h = rw (step-lt vm (omega arith)) refl
    eval_expr-value (Value.number n) vm p h = rw (step-lt vm (omega arith)) refl
    eval_expr-value (Value.string s) vm p h = rw (step-lt vm (omega arith)) refl
    eval_expr-value (Value.array xs) vm p h =
        rw (step-lt vm (omega arith), eval_array-items xs (after 1 vm) p (omega arith))
          (ground arith)
    eval_expr-value (Value.object fs) vm p h =
        rw
          (
            step-lt vm (omega arith),
            eval_object-fields fs Fields.end (after 1 vm) p refl (omega arith),
          )
          (ground arith)

    eval_array-items :
        (xs : Items) (vm : Vm W)
        → ArePlain number_of xs
        → vm.steps + items_size xs ≤ 10000
        → eval_array host limits env (exprs_of xs) vm ≡ (ok xs, after (items_size xs) vm)
    eval_array-items Items.nil vm p h = ground arith
    eval_array-items (Items.cons v xs) vm (p, q) h =
        rw
          (
            eval_expr-value v vm p (omega arith),
            eval_array-items xs (after (size v) vm) q (omega arith),
          )
          (ground arith)

    eval_object-fields :
        (fs acc : Fields) (vm : Vm W)
        → FieldsArePlain number_of fs
        → all_before acc fs ≡ true
        → vm.steps + fields_size fs ≤ 10000
        → eval_object host limits env (props_of fs) acc vm
          ≡ (ok (append_fields acc fs), after (fields_size fs) vm)
    eval_object-fields Fields.end acc vm p b h = ground (arith, append_fields-end acc)
    eval_object-fields (Fields.field k v fs) acc vm (_, a, p, q) b h =
        let later = append_fields acc (Fields.field k v Fields.end) in
        rw
          (
            eval_expr-value v vm p (omega arith),
            insert_field-all_before k v acc fs b,
            eval_object-fields fs later (after (size v) vm) q
                (all_before-append_fields acc k v fs a b) (omega arith),
          )
          (ground (arith, append_fields_assoc acc k v fs))
