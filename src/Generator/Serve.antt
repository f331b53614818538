-- ===== src/Generator/Serve.antt =====
-- What each class yields: operations for free threads, from generators that fit.
use jepsen_in_cpp.Prelude.{
  ℕ, Bool, true, false, if◌then◌else◌, ◌==◌, ◌≡◌, sym, ◌∙◌, subst, ◌⊎◌, inl, inr, M, if_ind, arith,
}
use jepsen_in_cpp.Prelude.Int.{ℤ, eqb_ℤ, eqb_ℤ_iff, ltb_ℤ, ◌+ℤ◌}
use jepsen_in_cpp.Prelude.Ensures.{
  Ensures, Ensures-pure, Ensures-fault, Ensures-lift, Ensures-if, Ensures-bind,
}
use jepsen_in_cpp.Operation.{Operation, is_pending, invalid_time, invalid_process}
use jepsen_in_cpp.Context.{Context, World, on_threads_context}
use jepsen_in_cpp.Context.Processes.{IsOwn, IsOwn-nemesis, All-In, lookup-In}
use jepsen_in_cpp.Context.Ready.{
  IsReady, IsRunning, IsServed, IsRunning-on_threads, IsReady-on_threads, random_free_process-Draws,
  Draws,
}
use jepsen_in_cpp.Generator.Types.{
  GeneratorPtr, null, operation, function, list, validate, on_threads, time_limit, end, link, Yield,
  Call, not_nil, nil,
}
use jepsen_in_cpp.Generator.Op.{
  operation_op, function_op, validate_op, on_threads_op, time_limit_op, stagger_op,
  fill_in_operation, fill_in,
}
use jepsen_in_cpp.Generator.Like.{Like}
use jepsen_in_cpp.Generator.Fits.{Fits, FitsOperation, Like-Fits}

fill_in-process :
    (p now : ℤ) (o : Operation)
    → (o.process ≡ invalid_process) ⊎ (o.process ≡ p)
    → is_pending (fill_in p now o).type ≡ false
    → (fill_in p now o).process ≡ p
unfolding fill_in
fill_in-process p now o h k =
    ground (arith, eqb_ℤ_iff p invalid_process, eqb_ℤ_iff o.process invalid_process)

-- An operation that fits is left to the drawn process, or is for it.
FitsOperation-process :
    (n : ℕ) (F : ℤ → Bool) (ctx : Context) (p : ℤ) (o : Operation)
    → IsRunning n F ctx
    → FitsOperation F o
    → IsReady ctx p
    → (o.process ≡ invalid_process) ⊎ (o.process ≡ p)
FitsOperation-process n F ctx p o running (inl e) ready = inl e
FitsOperation-process n F ctx p o running (inr (e, only)) ready = inr (
    e
    ∙ IsOwn-nemesis n ready.thread p
        (All-In (IsOwn n) ctx.workers (ready.thread, p) running.owned
          (lookup-In ctx.workers ready.thread p ready.runs))
        (only ready.thread (running.allowed ready.thread ready.is_free)))

fill_in-pending :
    (p now : ℤ) (o : Operation) → p ≡ invalid_process → is_pending (fill_in p now o).type ≡ true
unfolding fill_in
fill_in-pending p now o e = ground (arith, eqb_ℤ_iff p invalid_process)

fill_in-IsServed :
    (n : ℕ) (F : ℤ → Bool) (ctx : Context) (p now : ℤ) (o : Operation)
    → IsRunning n F ctx
    → FitsOperation F o
    → Draws ctx p
    → IsServed ctx (fill_in p now o)
fill_in-IsServed n F ctx p now o running fits (inl e) not_nil not_pending =
    cc (fill_in-pending p now o e)
fill_in-IsServed n F ctx p now o running fits (inr ready) not_nil not_pending =
    subst (IsReady ctx)
      (sym (
        fill_in-process p now o (FitsOperation-process n F ctx p o running fits ready) not_pending))
      ready

module _ (w : World) (n : ℕ) where
  open w use {State, rand}

  -- What a call of `op` yields: an operation for a free thread, and a generator that still fits.
  pub record IsGood (F : ℤ → Bool) (ctx : Context) (y : Yield State) : Type 0 where
    pub served : IsServed ctx y.op
    pub gen_Fits : Fits F y.gen
    pub self_Fits : Fits F y.self

  abbrev pub Serves : (F : ℤ → Bool) → Context → M State (Yield State) → Type 0
  Serves F ctx m = Ensures (IsGood F ctx) m

  pub nil-IsGood :
      (F : ℤ → Bool) (ctx : Context) (g : GeneratorPtr State) → Fits F g → IsGood F ctx (nil g)
  nil-IsGood F ctx g h = record { served = λ x y. cc; gen_Fits = tt; self_Fits = h }

  fill_in_operation-Serves :
      (F : ℤ → Bool) (ctx : Context) (o : Operation)
      → IsRunning n F ctx
      → FitsOperation F o
      → Ensures (IsServed ctx) (fill_in_operation w ctx o)
  unfolding fill_in_operation
  fill_in_operation-Serves F ctx o running fits =
      Ensures-bind _ _ (random_free_process-Draws w ctx)
        λ p d. Ensures-pure _ (fill_in-IsServed n F ctx p ctx.time o running fits d)

  pub operation_op-Serves :
      (F : ℤ → Bool) (o : Operation) (ctx : Context)
      → IsRunning n F ctx
      → FitsOperation F o
      → Serves F ctx (operation_op w o ctx)
  unfolding operation_op
  operation_op-Serves F o ctx running fits =
      Ensures-bind _ _ (fill_in_operation-Serves F ctx o running fits) λ r s.
        Ensures-pure _ (record {
          served = s;
          gen_Fits = if_ind (Fits F) (is_pending r.type) (operation o) null (λ _. fits) (λ _. tt);
          self_Fits = fits;
        })

  module _ (call : Call State)
      (serves : (F : ℤ → Bool) (g : GeneratorPtr State) (ctx : Context)
        → IsRunning n F ctx
        → Fits F g
        → Serves F ctx (call g ctx)) where
    pub validate_op-Serves :
        (F : ℤ → Bool) (g : GeneratorPtr State) (ctx : Context)
        → IsRunning n F ctx
        → Fits F g
        → Serves F ctx (validate_op w call g ctx)
    unfolding validate_op
    validate_op-Serves F g ctx running fits = Ensures-bind _ _ (serves F g ctx running fits) λ y h.
        Ensures-pure _ (record {
          served = h.served;
          gen_Fits =
              if_ind (Fits F) (not_nil y.op y.gen) (validate y.gen) y.gen (λ _. h.gen_Fits)
                (λ _. h.gen_Fits);
          self_Fits = h.self_Fits;
        })

    pub on_threads_op-Serves :
        (F : ℤ → Bool) (g : GeneratorPtr State) (filter : ℤ → Bool) (ctx : Context)
        → IsRunning n F ctx
        → Fits F (on_threads g filter)
        → Serves F ctx (on_threads_op w call g filter ctx)
    unfolding on_threads_op
    on_threads_op-Serves F g filter ctx running fits =
        Ensures-bind _ _
          (serves _ g (on_threads_context filter ctx) (IsRunning-on_threads n F filter ctx running)
            fits)
          λ y h.
            Ensures-if (not_nil y.op y.gen) _ _
              (λ _. Ensures-pure _ (record {
                served = λ x z. IsReady-on_threads filter ctx _ (h.served x z);
                gen_Fits = h.gen_Fits;
                self_Fits = h.self_Fits;
              }))
              (λ _. Ensures-pure _ (nil-IsGood F ctx _ h.self_Fits))

    pub time_limit_op-Serves :
        (F : ℤ → Bool) (limit cutoff : ℤ) (g : GeneratorPtr State) (ctx : Context)
        → IsRunning n F ctx
        → Fits F g
        → Serves F ctx (time_limit_op w call limit cutoff g ctx)
    unfolding time_limit_op
    time_limit_op-Serves F limit cutoff g ctx running fits =
        Ensures-bind _ _ (serves F g ctx running fits) λ y h.
          let set : ℤ = if eqb_ℤ cutoff invalid_time then (y.op).time +ℤ limit else cutoff in
          let good : (x : ℤ)
              → IsGood F ctx (record {
                op = y.op;
                gen = time_limit limit x y.gen;
                self = time_limit limit x y.self;
              }) =
            λ x. record { served = h.served; gen_Fits = h.gen_Fits; self_Fits = h.self_Fits } in
          Ensures-if (not_nil y.op y.gen) _ _
            (λ _.
              Ensures-if (is_pending (y.op).type) _ _ (λ _. Ensures-pure _ (good _))
                (λ _.
                  Ensures-if (ltb_ℤ (y.op).time set) _ _ (λ _. Ensures-pure _ (good _))
                    (λ _. Ensures-pure _ (nil-IsGood F ctx _ h.self_Fits))))
            (λ _. Ensures-pure _ (nil-IsGood F ctx _ h.self_Fits))

    pub stagger_op-Serves :
        (F : ℤ → Bool) (dt : ℕ) (next : ℤ) (g : GeneratorPtr State) (ctx : Context)
        → IsRunning n F ctx
        → Fits F g
        → Serves F ctx (stagger_op w call dt next g ctx)
    unfolding stagger_op
    stagger_op-Serves F dt next g ctx running fits =
        Ensures-bind _ _ (serves F g ctx running fits) λ y h.
          Ensures-if (not_nil y.op y.gen) _ _
            (λ _.
              Ensures-if (is_pending (y.op).type) _ _
                (λ _.
                  Ensures-pure _
                    (record { served = h.served; gen_Fits = h.self_Fits; self_Fits = h.self_Fits }))
                (λ _. Ensures-bind {P = λ r. Unit {0}} _ _ (Ensures-lift _ (λ s. tt)) λ r _.
                  Ensures-if (dt == 0) _ _ (λ _. Ensures-fault)
                    (λ _. Ensures-pure _ (record {
                      served = h.served;
                      gen_Fits = h.gen_Fits;
                      self_Fits = h.self_Fits;
                    }))))
            (λ _. Ensures-pure _ (nil-IsGood F ctx _ h.self_Fits))

    pub function_op-Serves :
        (F : ℤ → Bool) (f : Context → State → Operation × State) (ctx : Context)
        → IsRunning n F ctx
        → Fits F (function f)
        → Serves F ctx (function_op w call f ctx)
    unfolding function_op
    function_op-Serves F f ctx running fits =
        Ensures-bind {P = FitsOperation F} _ _ (Ensures-lift _ (λ s. fits ctx s)) λ o h.
          Ensures-bind _ _
            (serves F (list (link (operation o) (link (function f) end))) ctx running
              (h, (fits, tt)))
            λ y k.
              Ensures-pure _ (record { served = k.served; gen_Fits = k.gen_Fits; self_Fits = fits })

  -- Where what `op` leaves behind is like what it was called on, the generator fits as before.
  pub with_self :
      (F : ℤ → Bool) (g : GeneratorPtr State) (ctx : Context) (m : M State (Yield State))
      → Fits F g
      → Ensures (λ y. IsServed ctx y.op × Fits F y.gen) m
      → Ensures (λ y. Like g y.self) m
      → Serves F ctx m
  with_self F g ctx m fits h k = record {
    apply = λ s y s' e. record {
      served = (h.apply s y s' e).0;
      gen_Fits = (h.apply s y s' e).1;
      self_Fits = Like-Fits F (k.apply s y s' e) fits;
    };
  }
