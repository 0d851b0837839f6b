-- ===== src/Tasking/Owner/Submits.antt =====
-- Which commands of a history create work: the submissions. All other commands of the owner's
-- transport leave them as they were.
use agent_workload_platform.Prelude.{
  ℕ, String, ◌≡◌, refl, ap, Bool, true, false, List, [], ◌∷◌, ◌++◌, append-nil, arith, Result,
}
use agent_workload_platform.Json.{Value}
use agent_workload_platform.Tasking.Exec.{Command, World}
use agent_workload_platform.Tasking.Exec.Keeps.{
  Keeps, Keeps-bind, Keeps-lift, Keeps-pure, bind_outcome,
}
use agent_workload_platform.Tasking.Owner.{
  Peer, Reply, settle, call, submit, get_task, describe, describe_product, cancel_product, abort,
  progress, list_native,
}

-- The submissions of a history, in order.
abbrev pub submits : List Command → List Command
submits [] = []
submits (Command.submit k p r ∷ cs) = Command.submit k p r ∷ submits cs
submits (c ∷ cs) = submits cs

abbrev pub is_submit : Command → Bool
is_submit (Command.submit _ _ _) = true
is_submit _ = false

pub submits-append : (cs ds : List Command) → submits (cs ++ ds) ≡ submits cs ++ submits ds
submits-append [] ds = refl
submits-append (Command.submit k p r ∷ cs) ds =
    ap (◌∷◌ (Command.submit k p r)) (submits-append cs ds)
submits-append (Command.get_task x ∷ cs) ds = submits-append cs ds
submits-append (Command.describe x ∷ cs) ds = submits-append cs ds
submits-append (Command.describe_product x ∷ cs) ds = submits-append cs ds
submits-append (Command.abort x ∷ cs) ds = submits-append cs ds
submits-append (Command.retry x ∷ cs) ds = submits-append cs ds
submits-append (Command.get_many x ∷ cs) ds = submits-append cs ds
submits-append (Command.cancel_product x y ∷ cs) ds = submits-append cs ds
submits-append (Command.progress x y z ∷ cs) ds = submits-append cs ds
submits-append (Command.list_native x y ∷ cs) ds = submits-append cs ds

submits_one : (c : Command) → is_submit c ≡ false → submits (c ∷ []) ≡ []
submits_one (Command.submit k p r) h = cc
submits_one _ h = refl

-- The submissions of the history are `cs`.
abbrev pub Submitted : List Command → World → Type 0
Submitted cs w = submits w.sent ≡ cs

module _ (peer : Peer) where
  settle-sent : (c : Command) (r : Reply) (w : World) → (settle peer c r w).1.sent ≡ w.sent
  unfolding settle
  settle-sent c r w = ground arith

  -- Whatever is answered, the command is sent.
  pub call-sent : (c : Command) (w : World) → (call peer c w).1.sent ≡ w.sent ++ c ∷ []
  unfolding call
  call-sent c w = settle-sent c (peer.answer w.sent c) (record w { sent = w.sent ++ c ∷ [] })

  call-Keeps :
      (c : Command) (cs : List Command) → is_submit c ≡ false → Keeps (Submitted cs) (call peer c)
  call-Keeps c cs q = record {
    at = λ w h. rw (call-sent c w, submits-append, submits_one c q, append-nil) h;
  }

  module _ (cs : List Command) where
    pub get_task-Keeps : (id : String) → Keeps (Submitted cs) (get_task peer id)
    unfolding get_task
    get_task-Keeps id = call-Keeps (Command.get_task id) cs refl

    pub describe_product-Keeps : (id : String) → Keeps (Submitted cs) (describe_product peer id)
    unfolding describe_product
    describe_product-Keeps id = call-Keeps (Command.describe_product id) cs refl

    pub describe-Keeps : (id : String) → Keeps (Submitted cs) (describe peer id)
    unfolding describe
    describe-Keeps id = call-Keeps (Command.describe id) cs refl

    pub cancel_product-Keeps :
        (id identity : String) → Keeps (Submitted cs) (cancel_product peer id identity)
    unfolding cancel_product
    cancel_product-Keeps id identity = call-Keeps (Command.cancel_product id identity) cs refl

    pub abort-Keeps : (id : String) → Keeps (Submitted cs) (abort peer id)
    unfolding abort
    abort-Keeps id =
        Keeps-bind _ _ (call-Keeps (Command.abort id) cs refl)
          (λ result. Keeps-bind _ _ (Keeps-lift _) (λ disposition. Keeps-pure _))

    pub progress-Keeps :
        (id : String) (after limit : ℕ) → Keeps (Submitted cs) (progress peer id after limit)
    unfolding progress
    progress-Keeps id after limit = call-Keeps (Command.progress id after limit) cs refl

    pub list_native-Keeps :
        (identity : String) (limit : ℕ) → Keeps (Submitted cs) (list_native peer identity limit)
    unfolding list_native
    list_native-Keeps identity limit = call-Keeps (Command.list_native identity limit) cs refl

  -- A submission adds itself, whatever is answered.
  pub submit-submits :
      (kind : String) (params : Value) (request : String) (w : World)
      → submits (submit peer kind params request w).1.sent
        ≡ submits w.sent ++ Command.submit kind params request ∷ []
  unfolding submit
  submit-submits kind params request w =
      bind_outcome (λ w'. submits w'.sent ≡ submits w.sent ++ c ∷ []) (call peer c) _ w
        (λ result w' e.
          (Keeps-bind {P = Submitted (submits w.sent ++ c ∷ [])} _ _ (Keeps-lift _)
              (λ _. Keeps-pure _)).at
            w' (sent_after w' e))
        (λ x w' e. sent_after w' e)
    where
      c : Command
      c = Command.submit kind params request

      sent_after :
          {r : Result Value} (w' : World)
          → call peer c w ≡ (r, w')
          → submits w'.sent ≡ submits w.sent ++ c ∷ []
      sent_after w' e = rw (← ap (λ p. p.1.sent) e, call-sent c w) (submits-append w.sent (c ∷ []))

  -- The same of a run that is known.
  pub submit-submits_after :
      (kind : String) (params : Value) (request : String) (w : World) {r : Result String}
      (w' : World)
      → submit peer kind params request w ≡ (r, w')
      → submits w'.sent ≡ submits w.sent ++ Command.submit kind params request ∷ []
  submit-submits_after kind params request w w' e =
      rw (← ap (λ p. submits p.1.sent) e) (submit-submits kind params request w)
