-- ===== src/Expr/Connectives.antt =====
-- AND and OR: what they give, and which operands they evaluate.
use vfilter.Base.{ap, ◌≢◌, Bool, true, false, ◌≡◌, refl, returns, ◌∙◌}
use vfilter.Value.{Runtime, Any, bool}
use vfilter.Expr.Monad.{Eval, bind-returns, ◌>>=◌}
use vfilter.Expr.{
  Scope, OrOp, word, double_bar, other_bars, conjunction, AndTerms, and_end, and_term, OrExpression,
  disjunction, OrTerms, or_end, or_term, ConditionOperand,
}
use vfilter.Expr.Reduce.{
  and_then, or_then, is_true, or_value, reduce_comma, reduce_and, and_loop, reduce_or, or_loop,
  or_result, reduce_condition,
}

module _ {rt : Runtime} {S : Type 0} (scope : Scope rt S) where
  -- Evaluated in order from a state on, all operands are true; the last state is the second one.
  pub data AllTrue : AndTerms → S → S → Type 0 where
    none_left : {s : S} → AllTrue and_end s s
    one_more :
        {t : OrExpression} {ts : AndTerms} {s s1 s2 : S} {v : Any rt}
        → reduce_or scope t s ≡ returns (v, s1)
        → is_true scope v ≡ true
        → AllTrue ts s1 s2
        → AllTrue (and_term t ts) s s2

  -- An operand is false, the ones before it are true, and the state behind it is the second one.
  pub data FirstFalse : AndTerms → S → S → Type 0 where
    this_one :
        {t : OrExpression} {ts : AndTerms} {s s1 : S} {v : Any rt}
        → reduce_or scope t s ≡ returns (v, s1)
        → is_true scope v ≡ false
        → FirstFalse (and_term t ts) s s1
    later_one :
        {t : OrExpression} {ts : AndTerms} {s s1 s2 : S} {v : Any rt}
        → reduce_or scope t s ≡ returns (v, s1)
        → is_true scope v ≡ true
        → FirstFalse ts s1 s2
        → FirstFalse (and_term t ts) s s2

  and_loop_step :
      (t : OrExpression) (ts : AndTerms) (s : S)
      → and_loop scope (and_term t ts) s
        ≡ (reduce_or scope t >>= λ v. and_then scope v (and_loop scope ts)) s
  unfolding reduce_comma
  and_loop_step t ts s = refl

  and_then-true :
      (v : Any rt) (rest : Eval S (Any rt)) (s : S)
      → is_true scope v ≡ true
      → and_then scope v rest s ≡ rest s
  and_then-true v rest s h = rw h

  and_then-false :
      (v : Any rt) (rest : Eval S (Any rt)) (s : S)
      → is_true scope v ≡ false
      → and_then scope v rest s ≡ returns (bool false, s)
  and_then-false v rest s h = rw h

  and_loop-AllTrue :
      {ts : AndTerms} {s t : S} → AllTrue ts s t → and_loop scope ts s ≡ returns (bool true, t)
  and_loop-AllTrue none_left = unfold reduce_comma in refl
  and_loop-AllTrue (one_more {t} {ts} {s} {s1} {v = v} e h r) =
      and_loop_step t ts s
      ∙ bind-returns (reduce_or scope t) _ v s s1 e
      ∙ and_then-true v (and_loop scope ts) s1 h
      ∙ and_loop-AllTrue r

  and_loop-FirstFalse :
      {ts : AndTerms} {s t : S} → FirstFalse ts s t → and_loop scope ts s ≡ returns (bool false, t)
  and_loop-FirstFalse (this_one {t} {ts} {s} {s1} {v} e h) =
      and_loop_step t ts s
      ∙ bind-returns (reduce_or scope t) _ v s s1 e
      ∙ and_then-false v (and_loop scope ts) s1 h
  and_loop-FirstFalse (later_one {t} {ts} {s} {s1} {v = v} e h r) =
      and_loop_step t ts s
      ∙ bind-returns (reduce_or scope t) _ v s s1 e
      ∙ and_then-true v (and_loop scope ts) s1 h
      ∙ and_loop-FirstFalse r

  and_as_loop :
      (left t : OrExpression) (ts : AndTerms) (s : S)
      → reduce_and scope (conjunction left (and_term t ts)) s
        ≡ and_loop scope (and_term left (and_term t ts)) s
  unfolding reduce_comma
  and_as_loop left t ts s = refl

  -- The operands are all true, or one is false.
  abbrev pub Conjoined : Bool → AndTerms → S → S → Type 0
  Conjoined true ts s t = AllTrue ts s t
  Conjoined false ts s t = FirstFalse ts s t

  -- A conjunction of two or more operands is true if they all are, and false if one is; it evaluates
  -- its operands in order up to the first false one, and none behind that.
  pub reduce_and-short_circuit :
      (left right : OrExpression) (ts : AndTerms) (s t : S) (b : Bool)
      → Conjoined b (and_term left (and_term right ts)) s t
      → reduce_and scope (conjunction left (and_term right ts)) s ≡ returns (bool b, t)
  reduce_and-short_circuit left right ts s t true h = rw and_as_loop (and_loop-AllTrue h)
  reduce_and-short_circuit left right ts s t false h = rw and_as_loop (and_loop-FirstFalse h)

  -- Evaluated in order from a state on, all operands are false: the value of the last one, and the
  -- state behind it. Without any operand the value is the one before.
  pub data AllFalse : OrTerms → Any rt → S → Any rt → S → Type 0 where
    no_more : {v : Any rt} {s : S} → AllFalse or_end v s v s
    false_one :
        {op : OrOp} {t : ConditionOperand} {ts : OrTerms} {last v w : Any rt} {s s1 s2 : S}
        → reduce_condition scope t s ≡ returns (v, s1)
        → is_true scope v ≡ false
        → AllFalse ts v s1 w s2
        → AllFalse (or_term op t ts) last s w s2

  -- An operand is true, the ones before it are false: the operator in front of it, its value, and the
  -- state behind it.
  pub data FirstTrue : OrTerms → S → OrOp → Any rt → S → Type 0 where
    true_here :
        {op : OrOp} {t : ConditionOperand} {ts : OrTerms} {v : Any rt} {s s1 : S}
        → reduce_condition scope t s ≡ returns (v, s1)
        → is_true scope v ≡ true
        → FirstTrue (or_term op t ts) s op v s1
    true_later :
        {op op' : OrOp} {t : ConditionOperand} {ts : OrTerms} {v w : Any rt} {s s1 s2 : S}
        → reduce_condition scope t s ≡ returns (v, s1)
        → is_true scope v ≡ false
        → FirstTrue ts s1 op' w s2
        → FirstTrue (or_term op t ts) s op' w s2

  or_loop_step :
      (op : OrOp) (t : ConditionOperand) (ts : OrTerms) (last : Any rt) (s : S)
      → or_loop scope (or_term op t ts) last s
        ≡ (reduce_condition scope t >>= λ v. or_then scope op v (or_loop scope ts v)) s
  unfolding reduce_comma
  or_loop_step op t ts last s = refl

  or_then-true :
      (op : OrOp) (v : Any rt) (rest : Eval S (Any rt)) (s : S)
      → is_true scope v ≡ true
      → or_then scope op v rest s ≡ returns (or_value scope op v, s)
  or_then-true op v rest s h = rw h

  or_then-false :
      (op : OrOp) (v : Any rt) (rest : Eval S (Any rt)) (s : S)
      → is_true scope v ≡ false
      → or_then scope op v rest s ≡ rest s
  or_then-false op v rest s h = rw h

  or_loop-AllFalse :
      {ts : OrTerms} {last w : Any rt} {s t : S}
      → AllFalse ts last s w t
      → or_loop scope ts last s ≡ returns (w, t)
  or_loop-AllFalse no_more = unfold reduce_comma in refl
  or_loop-AllFalse (false_one {op} {t} {ts} {last} {v} {s = s} {s1} e h r) =
      or_loop_step op t ts last s
      ∙ bind-returns (reduce_condition scope t) _ v s s1 e
      ∙ or_then-false op v (or_loop scope ts v) s1 h
      ∙ or_loop-AllFalse r

  or_loop-FirstTrue :
      {ts : OrTerms} {op : OrOp} {w : Any rt} {s t : S} (last : Any rt)
      → FirstTrue ts s op w t
      → or_loop scope ts last s ≡ returns (or_value scope op w, t)
  or_loop-FirstTrue last (true_here {op} {t} {ts} {v} {s} {s1} e h) =
      or_loop_step op t ts last s
      ∙ bind-returns (reduce_condition scope t) _ v s s1 e
      ∙ or_then-true op v (or_loop scope ts v) s1 h
  or_loop-FirstTrue last (true_later {op} {t = t} {ts} {v} {s = s} {s1} e h r) =
      or_loop_step op t ts last s
      ∙ bind-returns (reduce_condition scope t) _ v s s1 e
      ∙ or_then-false op v (or_loop scope ts v) s1 h
      ∙ or_loop-FirstTrue v r

  or_step :
      (left : ConditionOperand) (ts : OrTerms) (l : Any rt) (s s1 : S)
      → reduce_condition scope left s ≡ returns (l, s1)
      → reduce_or scope (disjunction left ts) s ≡ or_result scope ts l s1
  or_step left ts l s s1 e =
      unfold reduce_comma in
      refl ∙ bind-returns (reduce_condition scope left) (or_result scope ts) l s s1 e

  or_result-true :
      (ts : OrTerms) (l : Any rt) (s : S)
      → is_true scope l ≡ true
      → or_result scope ts l s ≡ returns (l, s)
  or_result-true or_end l s h = unfold reduce_comma in refl
  or_result-true (or_term op t ts) l s h = unfold reduce_comma in rw h refl

  or_result-false :
      (ts : OrTerms) (l : Any rt) (s : S)
      → is_true scope l ≡ false
      → or_result scope ts l s ≡ or_loop scope ts l s
  or_result-false or_end l s h = unfold reduce_comma in refl
  or_result-false (or_term op t ts) l s h = unfold reduce_comma in rw h refl

  -- The value of a disjunction whose first operand gave `l` and left the state `s`, and the state
  -- that it leaves.
  pub data Disjoined : OrTerms → Any rt → S → Any rt → S → Type 0 where
    first_true : {ts : OrTerms} {l : Any rt} {s : S} → is_true scope l ≡ true → Disjoined ts l s l s
    later_bars :
        {ts : OrTerms} {l w : Any rt} {s t : S}
        → is_true scope l ≡ false
        → FirstTrue ts s double_bar w t
        → Disjoined ts l s w t
    later_word :
        {ts : OrTerms} {l w : Any rt} {s t : S} {op : OrOp}
        → is_true scope l ≡ false
        → op ≢ double_bar
        → FirstTrue ts s op w t
        → Disjoined ts l s (bool true) t
    none_true :
        {ts : OrTerms} {l w : Any rt} {s t : S}
        → is_true scope l ≡ false
        → AllFalse ts l s w t
        → Disjoined ts l s w t

  or_value-word : (op : OrOp) (w : Any rt) → op ≢ double_bar → or_value scope op w ≡ bool true
  or_value-word word w n = refl
  or_value-word double_bar w n = absurd (n refl)
  or_value-word other_bars w n = refl

  or_result-Disjoined :
      {ts : OrTerms} {l w : Any rt} {s t : S}
      → Disjoined ts l s w t
      → or_result scope ts l s ≡ returns (w, t)
  or_result-Disjoined (first_true {ts} {l} {s} h) = or_result-true ts l s h
  or_result-Disjoined (later_bars {ts} {l} {s = s} h f) =
      or_result-false ts l s h ∙ or_loop-FirstTrue l f
  or_result-Disjoined (later_word {ts} {l} {w} {s} {t} {op} h n f) =
      or_result-false ts l s h
      ∙ or_loop-FirstTrue l f
      ∙ ap (λ v. returns (v, t)) (or_value-word op w n)
  or_result-Disjoined (none_true {ts} {l} {s = s} h f) =
      or_result-false ts l s h ∙ or_loop-AllFalse f

  -- A disjunction gives its first operand as it is if that is true; else the value true for a later
  -- true operand behind OR, and that operand itself behind `||`; and if all are false, the last one
  -- itself. It evaluates its operands in order up to the first true one, and none behind that.
  pub reduce_or-short_circuit :
      (left : ConditionOperand) (ts : OrTerms) (l w : Any rt) (s s1 t : S)
      → reduce_condition scope left s ≡ returns (l, s1)
      → Disjoined ts l s1 w t
      → reduce_or scope (disjunction left ts) s ≡ returns (w, t)
  reduce_or-short_circuit left ts l w s s1 t e d = or_step left ts l s s1 e ∙ or_result-Disjoined d
