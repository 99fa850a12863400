-- ===== src/Views/AgentFindingsTrace/Settles.antt =====
-- frontend/src/components/trace/AgentFindingsTraceView.tsx: a change of the selection starts another
-- load; with the answers of an unchanged backend, in any order, this ends.
use arka.Prelude.{
  ℕ, zero, suc, ◌+◌, ◌-◌, ◌≤◌, ◌<◌, Bool, true, false, ◌||◌, inl, inr, Option, some, List, [], ◌∷◌,
  Text, ◌≡◌, refl, ap, sym, subst, ◌∙◌, any, Bool-cases, text_eq_refl, is_empty, arith, length, ◌*◌,
  if◌then◌else◌,
}
use arka.Types.FindingsTrace.{FindingTraceItem}
use arka.Client.{returned}
use arka.Types.Api.{ApiResponse}
use arka.Views.AgentFindingsTrace.{
  TraceView, load_effect, select_effect, flush, finish_load, set_findings, is_selected, is_unset,
}
use arka.Views.AgentFindingsTrace.Selected.{load_effect-findings, load_effect-selected}
use arka.Views.AgentFindingsTrace.Loads.{
  weight, total, total-length, Among, Among-total, IsFlushed, load_effect-quiet,
  load_effect-IsFlushed, load_effect-total, select_effect-quiet, here,
}

module _ (res : ApiResponse (List FindingTraceItem)) (item : FindingTraceItem)
    (items : List FindingTraceItem) (shown : res.payload ≡ some (item ∷ items))
    (named : is_empty item.finding_id ≡ false) where
  -- One of the loads is answered, and the effects run.
  pub data Answers (v : TraceView) : TraceView → Type 0 where
    answer :
        (captured : Option Text) (rest : List (Option Text))
        → Among captured v.loads rest
        → Answers v (flush (finish_load captured (returned res) (record v { loads = rest })))

  pub listed : TraceView → Bool
  listed v = any (is_selected v.selected_finding_id) (item ∷ items)

  listed_first :
      (v : TraceView)
      → v.findings ≡ item ∷ items
      → v.selected_finding_id ≡ some item.finding_id
      → any (is_selected v.selected_finding_id) v.findings ≡ true
  listed_first v f s =
      ap (any (is_selected v.selected_finding_id)) f
      ∙ ap (λ id. any (is_selected id) (item ∷ items)) s
      ∙ ap (λ b. b || any (is_selected (some item.finding_id)) items) (text_eq_refl item.finding_id)

  -- What is left to answer at most
  pub measure : TraceView → ℕ
  unfolding listed total
  measure v = total v.loads + (if listed v then 0 else 1)

  -- The state that an answer leaves to the effects
  answered : Option Text → TraceView → TraceView
  answered captured v = record v {
    findings = item ∷ items;
    selected_finding_id = if is_unset captured then some item.finding_id else v.selected_finding_id;
    is_loading = false;
  }

  finish_load-answered :
      (captured : Option Text) (v : TraceView)
      → finish_load captured (returned res) v ≡ answered captured v
  unfolding finish_load set_findings answered
  finish_load-answered captured v = rw shown

  flush_new :
      (v : TraceView)
      → v.findings ≡ item ∷ items
      → v.selected_finding_id ≡ some item.finding_id
      → flush v ≡ load_effect v
  unfolding flush
  flush_new v f s =
      let f1 = load_effect-findings v ∙ f in
      let s1 = load_effect-selected v ∙ s in
      rw (select_effect-quiet (load_effect v) (listed_first (load_effect v) f1 s1))
        (load_effect-quiet (load_effect v) (load_effect-IsFlushed v))

  -- The effects have run, and at most `n` is left to answer.
  Lighter : ℕ → TraceView → Type 0
  Lighter n w = (measure w ≤ n) × IsFlushed w

  weight_item : weight (some item.finding_id) ≡ 1
  unfolding weight
  weight_item = rw named

  measure_first :
      (w : TraceView) → w.selected_finding_id ≡ some item.finding_id → measure w ≡ total w.loads
  unfolding measure listed
  measure_first w s = rw (s, text_eq_refl item.finding_id) (omega arith)

  -- With the first finding selected, the effects start at most one more load, which is for it.
  load_effect-first :
      (w : TraceView)
      → w.selected_finding_id ≡ some item.finding_id
      → Lighter (1 + total w.loads) (load_effect w)
  unfolding Lighter
  load_effect-first w s =
      let m = measure_first (load_effect w) (load_effect-selected w ∙ s) in
      let t = load_effect-total w in
      let k : weight w.selected_finding_id ≡ 1 = ap weight s ∙ weight_item in
      (omega arith, load_effect-IsFlushed w)

  flush-unset :
      (captured : Option Text) (w : TraceView)
      → is_unset captured ≡ true
      → Lighter (1 + total w.loads) (flush (answered captured w))
  unfolding answered
  flush-unset captured w h =
      let u = answered captured w in
      let s : u.selected_finding_id ≡ some item.finding_id = rw h in
      rw (flush_new u refl s) (load_effect-first u s)

  -- The state after an answer that does not touch the selection
  kept : TraceView → TraceView
  kept w = record w { findings = item ∷ items; is_loading = false }

  answered-kept :
      (captured : Option Text) (w : TraceView)
      → is_unset captured ≡ false
      → answered captured w ≡ kept w
  unfolding answered kept
  answered-kept captured w h = rw h

  measure-listed : (w : TraceView) → listed w ≡ true → measure w ≡ total w.loads
  unfolding measure
  measure-listed w h = rw h (omega arith)

  measure-lost : (w : TraceView) → listed w ≡ false → measure w ≡ total w.loads + 1
  unfolding measure
  measure-lost w h = rw h

  flush-kept : (w : TraceView) → IsFlushed w → listed w ≡ true → flush (kept w) ≡ kept w
  unfolding flush kept listed IsFlushed
  flush-kept w f h =
      rw (load_effect-quiet (kept w) f, select_effect-quiet (kept w) h)
        (load_effect-quiet (kept w) f)

  listed-kept : (w : TraceView) → listed w ≡ true → measure (kept w) ≤ total w.loads
  unfolding kept listed measure
  listed-kept w h = rw h (omega arith)

  kept-IsFlushed : (w : TraceView) → IsFlushed w → IsFlushed (kept w)
  unfolding kept IsFlushed
  kept-IsFlushed w f = f

  flush-listed :
      (w : TraceView) → IsFlushed w → listed w ≡ true → Lighter (total w.loads) (flush (kept w))
  unfolding Lighter
  flush-listed w f h =
      subst (Lighter (total w.loads)) (sym (flush-kept w f h)) (listed-kept w h, kept-IsFlushed w f)

  flush-lost :
      (w : TraceView)
      → IsFlushed w
      → listed w ≡ false
      → Lighter (1 + total w.loads) (flush (kept w))
  unfolding flush kept listed IsFlushed select_effect
  flush-lost w f h =
      rw (load_effect-quiet (kept w) f, h)
        (load_effect-first (record (kept w) { selected_finding_id = some item.finding_id }) refl)

  weight-unset : (captured : Option Text) → is_unset captured ≡ true → weight captured ≡ 2
  unfolding weight
  weight-unset captured h = rw h

  weight-set : (captured : Option Text) → is_unset captured ≡ false → weight captured ≡ 1
  unfolding weight
  weight-set captured h = rw h

  Lighter-lt : (n : ℕ) (w : TraceView) → Lighter n w → (measure w ≤ n) × IsFlushed w
  unfolding Lighter
  Lighter-lt n w l = l

  lighten : (m n : ℕ) (w : TraceView) → m ≤ n → Lighter m w → Lighter n w
  unfolding Lighter
  lighten m n w h (l, f) = (let l' : measure w ≤ m = l in omega arith, f)

  measure-total : (w : TraceView) → total w.loads ≤ measure w
  unfolding measure
  measure-total w = omega arith

  flush-kept-Lighter :
      (n : ℕ) (w : TraceView) → IsFlushed w → measure w ≡ n → Lighter n (flush (kept w))
  flush-kept-Lighter n w f e = elim (Bool-cases (listed w)) [
    | inl h ↦
        let l = measure-listed w h in
        lighten (total w.loads) n (flush (kept w)) (omega arith) (flush-listed w f h)
    | inr h ↦
        let l = measure-lost w h in
        lighten (1 + total w.loads) n (flush (kept w)) (omega arith) (flush-lost w f h)
  ]

  answered-Lighter :
      (n : ℕ) (captured : Option Text) (w : TraceView)
      → IsFlushed w
      → weight captured + measure w ≡ suc n
      → Lighter n (flush (answered captured w))
  answered-Lighter n captured w f e = elim (Bool-cases (is_unset captured)) [
    | inl h ↦
        let k = weight-unset captured h in
        let t = measure-total w in
        lighten (1 + total w.loads) n (flush (answered captured w)) (omega arith)
          (flush-unset captured w h)
    | inr h ↦
        let k = weight-set captured h in
        subst (λ u. Lighter n (flush u)) (sym (answered-kept captured w h))
          (flush-kept-Lighter n w f (omega arith))
  ]

  measure-rest :
      (v : TraceView) (captured : Option Text) (rest : List (Option Text))
      → Among captured v.loads rest
      → weight captured + measure (record v { loads = rest }) ≡ measure v
  unfolding measure listed
  measure-rest v captured rest a = let e = Among-total a in omega arith

  weight_pos : (captured : Option Text) → 0 < weight captured
  weight_pos captured = elim (Bool-cases (is_unset captured)) [
    | inl h ↦ let k = weight-unset captured h in omega arith
    | inr h ↦ let k = weight-set captured h in omega arith
  ]

  loads-IsFlushed :
      (v : TraceView) (rest : List (Option Text))
      → IsFlushed v
      → IsFlushed (record v { loads = rest })
  unfolding IsFlushed
  loads-IsFlushed v rest f = f

  Lighter-below :
      (n k : ℕ) (w : TraceView) → suc n ≡ k → Lighter n w → (measure w < k) × IsFlushed w
  Lighter-below n k w e l = let (m, f) = Lighter-lt n w l in (omega arith, f)

  -- An answer leaves less to answer.
  pub Answers-lt :
      {v w : TraceView} → IsFlushed v → Answers v w → (measure w < measure v) × IsFlushed w
  Answers-lt {v} f (answer captured rest a) =
      let w = record v { loads = rest } in
      let p = weight_pos captured in
      let e = measure-rest v captured rest a in
      let n : ℕ = measure v - 1 in
      Lighter-below n (measure v) _ (omega arith) (
        subst (λ u. Lighter n (flush u)) (sym (finish_load-answered captured w))
          (answered-Lighter n captured w (loads-IsFlushed v rest f) (omega arith)))

  -- `n` answers lead from one state to the other.
  pub data Rounds : TraceView → ℕ → TraceView → Type 0 where
    no_more : {v : TraceView} → Rounds v 0 v
    one_more : {n : ℕ} {v u w : TraceView} → Answers v u → Rounds u n w → Rounds v (suc n) w

  Rounds-le : {n : ℕ} {v w : TraceView} → IsFlushed v → Rounds v n w → n + measure w ≤ measure v
  Rounds-le f no_more = omega arith
  Rounds-le f (one_more a r) = let (m, g) = Answers-lt f a in let k = Rounds-le g r in omega arith

  -- Some `n` answers leave no load.
  pub Ends : TraceView → Type 0
  Ends v = (n : ℕ) × (w : TraceView) × Rounds v n w × (w.loads ≡ [])

  Ends-from : {v u : TraceView} → Answers v u → Ends u → Ends v
  unfolding Ends
  Ends-from a (n, w, r, e) = (suc n, w, one_more a r, e)

  Ends-when : (v : TraceView) → v.loads ≡ [] → Ends v
  unfolding Ends
  Ends-when v e = (0, v, no_more, e)

  some_left :
      (v : TraceView) (c : Option Text) (rest : List (Option Text))
      → v.loads ≡ c ∷ rest
      → 0 < measure v
  unfolding total
  some_left v c rest e =
      let t = measure-total v in
      let p = weight_pos c in
      let q : total v.loads ≡ weight c + total rest = ap total e in omega arith

  rounds_end :
      (k : ℕ) (v : TraceView) (loads : List (Option Text))
      → v.loads ≡ loads
      → measure v ≤ k
      → IsFlushed v
      → Ends v
  rounds_end k v [] e m f = Ends-when v e
  rounds_end zero v (c ∷ rest) e m f = let p = some_left v c rest e in absurd (omega arith)
  rounds_end (suc k) v (c ∷ rest) e m f =
      let a = answer c rest (subst (λ ls. Among c ls rest) (sym e) here) in
      let (l, g) = Answers-lt f a in Ends-from a (rounds_end k _ _ refl (omega arith) g)

  Rounds-IsFlushed : {n : ℕ} {v w : TraceView} → IsFlushed v → Rounds v n w → IsFlushed w
  Rounds-IsFlushed f no_more = f
  Rounds-IsFlushed f (one_more a r) = let (m, g) = Answers-lt f a in Rounds-IsFlushed g r

  measure-length : (v : TraceView) → measure v ≤ 2 * length v.loads + 1
  measure-length v =
      let t = total-length v.loads in
      elim (Bool-cases (listed v)) [
        | inl h ↦ let m = measure-listed v h in omega arith
        | inr h ↦ let m = measure-lost v h in omega arith
      ]

  -- While the backend answers each load with the same findings, of which the first has an id, the
  -- view's own loads come to an end: whatever the order of the answers, there are at most twice as
  -- many as loads are waiting and one more, and from each state some answers lead to one without
  -- a load.
  pub loads_end :
      {n : ℕ} {v w : TraceView} → IsFlushed v → Rounds v n w → (n ≤ 2 * length v.loads + 1) × Ends w
  loads_end {n} {v} {w} f r =
      let k = Rounds-le f r in
      let m = measure-length v in
      (omega arith, rounds_end (measure w) w w.loads refl (omega arith) (Rounds-IsFlushed f r))
