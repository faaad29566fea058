-- ===== src/Evaluator/Run.antt =====
-- The labels keep the invariant of the machine, one by one.
use reduct.Prelude.{
  ℕ, suc, ◌+◌, ◌<◌, Bool, true, false, List, [], ◌∷◌, ◌≡◌, ap, subst, length, ltb, ◌==◌, ltb→lt,
  if◌then◌else◌, Bool-cases, inl, inr, arith,
}
use reduct.Opcode.{Opcode}
use reduct.Inst.{get_a, get_b, get_c, get_sax}
use reduct.Evaluator.Machine.{
  Kind, Result, ok, ◌>>=◌, from_option, Function, Closure, Frame, Machine, Host, read_reg,
  read_closure, write_reg,
}
use reduct.Evaluator.Frames.{push_frame, pop_to, bundle_args}
use reduct.Evaluator.Step
use reduct.Evaluator.Step.{Next, running, finished, copy_down, step}
use reduct.Evaluator.Invariant.{
  On, On-bind, On-map, On-always, IsMachine, Stacked, Alike, Alike-trans, write_reg-Alike,
  copy_down-Alike,
}
use reduct.Evaluator.Keeps.{push_frame-IsMachine, pop_to-IsMachine, Bundled, bundle_args-Alike}

abbrev pub NextIs : {V : Type 0} → Next V → Type 0
NextIs (running m) = IsMachine m
NextIs (finished v m) = IsMachine m

-- What natives and futures must do: hand back a machine as they should.
pub record IsHost {V : Type 0} (host : Host V) : Type 0 where
  pub native :
      (n argc argv : ℕ) (m : Machine V)
      → IsMachine m
      → On (λ (r : V × Machine V). IsMachine r.1) (host.native n argc argv m)
  pub spawn :
      (v : V) (argc argv : ℕ) (m : Machine V) → IsMachine m → IsMachine (host.spawn v argc argv m).1
  pub join :
      (n : ℕ) (m : Machine V)
      → IsMachine m
      → On (λ (r : V × Machine V). IsMachine r.1) (host.join n m)

module _ {V : Type 0} (host : Host V) (should_fork : Bool) (initial : ℕ)
    (lawful : IsHost host) where
  -- A read, whose value says nothing.
  pub after_read :
      {A B : Type 0} (Q : B → Type 0) (r : Result A) (k : A → Result B)
      → ((a : A) → On Q (k a))
      → On Q (r >>= k)
  after_read Q r k h = On-bind (λ a. Unit) Q r k (On-always (λ a. Unit) r (λ a. tt)) (λ a _. h a)

  -- A step of the frame `f` above `fs`.
  module _ (m : Machine V) (f : Frame) (fs : List Frame) (h : IsMachine m)
      (e : m.frames ≡ f ∷ fs) where
    abbrev Keeps : Result (Next V) → Type 0
    Keeps r = On NextIs r

    pub set_ip-IsMachine : (ip : ℕ) → IsMachine (Step.set_ip host should_fork initial m f fs ip)
    set_ip-IsMachine ip = record {
      some_regs = h.some_regs;
      some_frames = h.some_frames;
      counted = h.counted;
      framed = omega (arith, h.framed, ap length e);
      stacked =
          subst (λ t. Stacked m.closures m.closure_count (length m.regs) t m.reg_count) e h.stacked;
    }

    pub jump-Keeps : (inst : ℕ) → Keeps (Step.jump host should_fork initial m f fs inst)
    jump-Keeps inst =
        after_read NextIs (from_option (Step.move_ip f.ip (get_sax inst))) _
          (λ ip. set_ip-IsMachine ip)

    pub jump_if-Keeps :
        (inst : ℕ) (when : Bool) → Keeps (Step.jump_if host should_fork initial m f fs inst when)
    jump_if-Keeps inst when =
        after_read NextIs (read_reg m (f.base + get_c inst)) _
          (λ v. branch (Step.truthy host should_fork initial v) when)
      where
        branch :
            (b when : Bool)
            → On NextIs (
                if b
                then (if when
                    then Step.jump host should_fork initial m f fs inst
                    else ok (running m))
                else (if when
                    then ok (running m)
                    else Step.jump host should_fork initial m f fs inst))
        branch true true = jump-Keeps inst
        branch true false = h
        branch false true = h
        branch false false = jump-Keeps inst

    pub skip-Keeps :
        (inst : ℕ) (c : V) (op : Opcode)
        → Keeps (Step.skip host should_fork initial m f fs inst c op)
    skip-Keeps inst c op =
        after_read NextIs (read_reg m (f.base + get_b inst)) _ (λ b. branch (host.compare op b c))
      where
        branch :
            (b : Bool)
            → IsMachine (if b then Step.set_ip host should_fork initial m f fs (suc f.ip) else m)
        branch true = set_ip-IsMachine (suc f.ip)
        branch false = h

  -- Steps that write registers only.
  module _ (m : Machine V) (h : IsMachine m) where
    pub store-Keeps :
        (f : Frame) (inst : ℕ) (v : V) → On NextIs (Step.store host should_fork initial m f inst v)
    store-Keeps f inst v =
        On-bind (Alike m) NextIs (write_reg m (f.base + get_a inst) v) _
          (write_reg-Alike m (f.base + get_a inst) v h) (λ m' a. a.is)

    store_in-Keeps :
        (fs : List Frame) (a : ℕ) (v : V)
        → On NextIs (Step.store_in host should_fork initial m fs a v)
    store_in-Keeps [] a v = tt
    store_in-Keeps (f ∷ fs) a v =
        On-bind (Alike m) NextIs (write_reg m (f.base + a) v) _ (write_reg-Alike m (f.base + a) v h)
          (λ m' s. s.is)

    pub compare-Keeps :
        (f : Frame) (inst : ℕ) (c : V) (op : Opcode)
        → On NextIs (Step.compare host should_fork initial m f inst c op)
    compare-Keeps f inst c op =
        after_read NextIs (read_reg m (f.base + get_b inst)) _
          (λ b. store-Keeps f inst (host.of_bool (host.compare op b c)))

    pub arithmetic-Keeps :
        (f : Frame) (inst : ℕ) (c : V) (op : Opcode)
        → On NextIs (Step.arithmetic host should_fork initial m f inst c op)
    arithmetic-Keeps f inst c op =
        after_read NextIs (read_reg m (f.base + get_b inst)) _
          λ b. after_read NextIs (host.compute op b c) _ (store-Keeps f inst)

    pub shift-Keeps :
        (f : Frame) (inst : ℕ) (c : V) (op : Opcode)
        → On NextIs (Step.shift host should_fork initial m f inst c op)
    shift-Keeps f inst c op = after_read NextIs (host.as_int c) _ λ amount.
        elim (Bool-cases (Step.valid_amount amount)) [
          | inr e ↦ rw e tt
          | inl e ↦ rw e (
              after_read NextIs (read_reg m (f.base + get_b inst)) _ λ b.
                after_read NextIs (host.as_int b) _
                  λ x. store-Keeps f inst (host.shift op x amount))
        ]

    pub not_callable-Keeps :
        (k : Kind) → On (NextIs {V = V}) (Step.not_callable host should_fork initial k)
    not_callable-Keeps Kind.nil = tt
    not_callable-Keeps _ = tt

    pub known : (k : ℕ) → On (λ (c : Closure V). k < m.closure_count) (read_closure m k)
    unfolding read_closure
    known k = elim (Bool-cases (ltb k m.closure_count)) [
      | inl e ↦ rw e (ltb→lt k m.closure_count e)
      | inr e ↦ rw e tt
    ]

    pub enter-Keeps :
        (k argc argv : ℕ) (callee : Function V)
        → k < m.closure_count
        → On NextIs
            (bundle_args host m callee argc argv >>= λ r. ok (running (push_frame host r.1 k argv)))
    enter-Keeps k argc argv callee below =
        On-bind (Bundled host m) NextIs (bundle_args host m callee argc argv) _
          (bundle_args-Alike host m callee argc argv h)
          λ r a. push_frame-IsMachine host r.1 k argv a.is (omega (arith, a.closure_count))

    pub after_native :
        (r : Result (V × Machine V)) (k : V × Machine V → Result (Next V))
        → On (λ (r : V × Machine V). IsMachine r.1) r
        → ((r : V × Machine V) → IsMachine r.1 → On NextIs (k r))
        → On NextIs (r >>= k)
    after_native = On-bind (λ (r : V × Machine V). IsMachine r.1) NextIs

  pub store_top-Keeps :
      (a : ℕ) (r : V × Machine V)
      → IsMachine r.1
      → On NextIs (Step.store_top host should_fork initial a r)
  store_top-Keeps a (v, m) h = store_in-Keeps m h m.frames a v

  pub call_kind-Keeps :
      (m : Machine V)
      → IsMachine m
      → (f : Frame) (inst : ℕ) (k : Kind)
      → On NextIs (Step.call_kind host should_fork initial m f inst k)
  call_kind-Keeps m h f inst (Kind.closure k) =
      On-bind (λ (c : Closure V). k < m.closure_count) NextIs (read_closure m k) _ (known m h k)
        λ c below. enter-Keeps m h k (get_b inst) (f.base + get_a inst) c.function below
  call_kind-Keeps m h f inst (Kind.native n) =
      after_native m h (host.native n (get_b inst) (f.base + get_a inst) m) _
        (lawful.native n (get_b inst) (f.base + get_a inst) m h) (store_top-Keeps (get_a inst))
  call_kind-Keeps m h f inst Kind.nil = tt
  call_kind-Keeps m h f inst _ = tt

  return_to-Keeps :
      (m : Machine V)
      → IsMachine m
      → (v : V) → On NextIs (Step.return_to host should_fork initial m v)
  return_to-Keeps m h v =
      On-bind IsMachine NextIs (pop_to host m m.frames) _
        (pop_to-IsMachine host m m.frames h h.framed h.stacked) λ m' h'. branch _ m' h'
    where
      branch :
          (b : Bool) (m' : Machine V)
          → IsMachine m'
          → NextIs (if b then finished v m' else running m')
      branch true m' h' = h'
      branch false m' h' = h'

  pub return-Keeps :
      (m : Machine V)
      → IsMachine m
      → (f : Frame) (v : V) → On NextIs (Step.return host should_fork initial m f v)
  return-Keeps m h f v =
      On-bind (Alike m) NextIs (write_reg m f.base v) _ (write_reg-Alike m f.base v h)
        λ m' a. return_to-Keeps m' a.is v

  return_in-Keeps :
      (m : Machine V)
      → IsMachine m
      → (fs : List Frame) (v : V) → On NextIs (Step.return_in host should_fork initial m fs v)
  return_in-Keeps m h [] v = tt
  return_in-Keeps m h (f ∷ fs) v = return-Keeps m h f v

  pub return_native-Keeps :
      (r : V × Machine V)
      → IsMachine r.1
      → On NextIs (Step.return_native host should_fork initial r)
  return_native-Keeps (v, m) h = return_in-Keeps m h m.frames v

  pub tail_args-Alike :
      (m : Machine V)
      → IsMachine m
      → (f : Frame) (inst : ℕ) (callee : Function V)
      → On (Alike m) (Step.tail_args host should_fork initial m f inst callee)
  tail_args-Alike m h f inst callee =
      On-bind (Bundled host m) (Alike m)
        (bundle_args host m callee (get_b inst) (f.base + get_a inst)) _
        (bundle_args-Alike host m callee (get_b inst) (f.base + get_a inst) h) λ r a. move r.0 r.1 a
    where
      move :
          (n : ℕ) (m' : Machine V)
          → Alike m m'
          → On (Alike m) (if get_a inst == 0 then ok m' else copy_down m' f.base (get_a inst) 0 n)
      move n m' a = elim (Bool-cases (get_a inst == 0)) [
        | inl e ↦ rw e a
        | inr e ↦ rw e (
            On-map (Alike m') (Alike m) (copy_down m' f.base (get_a inst) 0 n)
              (copy_down-Alike f.base (get_a inst) n 0 m' a.is) (λ m₂. Alike-trans a))
      ]
