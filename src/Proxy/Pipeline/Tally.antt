-- ===== src/Proxy/Pipeline/Tally.antt =====
-- How often an exchange is counted, logged and answered.
use morpheus_proxy.Prelude.{
  ℕ, suc, ◌≤◌, ◌≡◌, refl, ◌∙◌, arith, Bool, true, false, none, some, List, [], ◌∷◌, subst,
  if◌then◌else◌,
}
use morpheus_proxy.Rules.Types.{FaultSpec}
use morpheus_proxy.Rules.Evaluate.{RuleErrorInfo}
use morpheus_proxy.Logging.Messages.{MessageDraft}
use morpheus_proxy.Proxy.Pipeline.Exchange.{
  ProxyRuntime, Course, HttpExchange, Context, Vars, Flow, Flowed, Effect, Ended, going, returned,
  threw, waits, write_log, script_errors, should_log, ◌>>=◌, followed_by, marked, metered, perform,
}
use morpheus_proxy.Proxy.Pipeline.Stages.{answer, execute_fault}
use morpheus_proxy.Logging.TrafficLog.{TrafficEventDraft}
use morpheus_proxy.Rules.Matcher.{HeaderMap}
use morpheus_proxy.Grpc.Frames.{Buffer}

-- How many exchanges were counted, how many entries were added, and how many responses were sent.
pub record Tally : Type 0 where
  pub counted : ℕ
  pub added : ℕ
  pub sent : ℕ

abbrev bump : Effect → Tally → Tally
bump (Effect.respond status headers body) t = record t { sent = suc t.sent }
bump (Effect.respond_stream status headers body) t = record t { sent = suc t.sent }
bump (Effect.destroy reset) t = t
bump Effect.destroy_upstream t = t
bump (Effect.sleep ms) t = t
bump (Effect.send request) t = t
bump (Effect.record_request outcome ids ms) t = record t { counted = suc t.counted }
bump Effect.record_script_error t = t
bump (Effect.add draft) t = record t { added = suc t.added }
bump (Effect.warn message) t = t

abbrev pub tally : List Effect → Tally
tally [] = record { counted = 0; added = 0; sent = 0 }
tally (e ∷ es) = bump e (tally es)

-- Nothing that counts has happened.
abbrev pub Untouched : Vars → Vars → Type 0
Untouched v w = (w.logged ≡ false) × (tally w.effects ≡ tally v.effects)

-- The exchange is over: counted once more, and logged and answered once more at most.
abbrev pub Over : Tally → Tally → Type 0
Over s t = (t.counted ≡ suc s.counted) × (t.added ≤ suc s.added) × (t.sent ≤ suc s.sent)

abbrev pub Tracked : {A : Type 0} → Vars → Vars → Ended A → Type 0
Tracked v w (going a) = Untouched v w
Tracked v w returned = Over (tally v.effects) (tally w.effects)
Tracked v w (threw e) = Untouched v w
Tracked v w waits = ⊥

abbrev pub Tracks : {A : Type 0} → Flow A → Type 0
Tracks m = (v : Vars) → v.logged ≡ false → Tracked v (m v).vars (m v).ended

rebase : {A : Type 0} (v w x : Vars) (e : Ended A) → Untouched v w → Tracked w x e → Tracked v x e
rebase v w x (going a) h k = (k.0, k.1 ∙ h.1)
rebase v w x returned h k = subst (λ s. Over s (tally x.effects)) h.1 k
rebase v w x (threw e) h k = (k.0, k.1 ∙ h.1)
rebase v w x waits h k = absurd k

-- What tracks goes on tracking behind changes that do not count.
pub after-Tracked :
    {A : Type 0} (m : Flow A) (v w : Vars)
    → Tracks m
    → Untouched v w
    → Tracked v (m w).vars (m w).ended
after-Tracked m v w h u = rebase v w (m w).vars (m w).ended u (h w u.0)

-- A branch, both arms of which track.
pub if-Tracked :
    {A : Type 0} (c : Bool) (v : Vars) (x y : Flowed A)
    → Tracked v x.vars x.ended
    → Tracked v y.vars y.ended
    → Tracked v (if c then x else y).vars (if c then x else y).ended
if-Tracked true v x y h k = h
if-Tracked false v x y h k = k

followed_by-Tracked :
    {A B : Type 0} (v w : Vars) (e : Ended A) (f : A → Flow B)
    → Tracked v w e
    → ((a : A) → Tracks (f a))
    → Tracked v (followed_by w e f).vars (followed_by w e f).ended
followed_by-Tracked v w (going a) f h k = after-Tracked (f a) v w (k a) h
followed_by-Tracked v w returned f h k = h
followed_by-Tracked v w (threw e) f h k = h
followed_by-Tracked v w waits f h k = absurd h

pub bind-Tracks :
    {A B : Type 0} (m : Flow A) (f : A → Flow B)
    → Tracks m
    → ((a : A) → Tracks (f a))
    → Tracks (m >>= f)
unfolding ◌>>=◌
bind-Tracks m f h k v l = followed_by-Tracked v (m v).vars (m v).ended f (h v l) k

pub script_errors-tally :
    (es : List RuleErrorInfo) (effects : List Effect)
    → tally (script_errors es effects) ≡ tally effects
unfolding script_errors
script_errors-tally [] effects = refl
script_errors-tally (e ∷ es) effects = script_errors-tally es (Effect.record_script_error ∷ effects)

-- What `writeLog` does to the tally.
abbrev pub Written : Tally → Tally → Type 0
Written s t = (t.counted ≡ suc s.counted) × (t.added ≤ suc s.added) × (t.sent ≡ s.sent)

pub add_if-Written :
    (c : Bool) (draft : TrafficEventDraft) (w : Vars) (s : Tally)
    → tally w.effects ≡ record s { counted = suc s.counted }
    → Written s (tally (if c then perform (Effect.add draft) w else w).effects)
add_if-Written true draft w s h = rw h (refl, omega arith, refl)
add_if-Written false draft w s h = rw h (refl, omega arith, refl)

abbrev pub IsHttpFault : FaultSpec → Type 0
IsHttpFault (FaultSpec.http_response status headers body) = Unit
IsHttpFault (FaultSpec.grpc_status status message metadata) = ⊥
IsHttpFault (FaultSpec.connection mode) = Unit
IsHttpFault (FaultSpec.timeout duration) = Unit

module _ (runtime : ProxyRuntime) (course : Course) (exchange : HttpExchange) (ctx : Context) where
  pub write_log-Written :
      (draft : MessageDraft) (v : Vars)
      → Written (tally v.effects) (tally (write_log runtime course exchange ctx draft v).effects)
  unfolding write_log
  write_log-Written draft v =
      add_if-Written (should_log ctx (marked course v)) _ (metered ctx (marked course v))
        (tally v.effects) (script_errors-tally v.rule_errors _)

  -- After a response, or none.
  pub Written-Over : (s t : Tally) → Written s t → Over s t
  Written-Over s t h = (h.0, h.1, omega arith)

  pub answer-Over :
      (A : Type 0) (status : ℕ) (headers : HeaderMap) (body : Buffer) (v : Vars)
      → Over
          (tally v.effects)
          (tally (answer runtime course exchange ctx {A = A} status headers body v).vars.effects)
  unfolding answer
  answer-Over A status headers body v =
      let h = write_log-Written _ (perform (Effect.respond status headers body) v) in
      (h.0, h.1, omega arith)

  pub answer-Tracks :
      (A : Type 0) (status : ℕ) (headers : HeaderMap) (body : Buffer)
      → Tracks (answer runtime course exchange ctx {A = A} status headers body)
  unfolding answer
  answer-Tracks A status headers body v l = answer-Over A status headers body v

  -- A fault of gRPC is not for this listener.
  pub execute_fault-Tracks :
      (A : Type 0) (fault : FaultSpec)
      → IsHttpFault fault
      → Tracks (execute_fault runtime course exchange ctx {A = A} fault)
  unfolding execute_fault
  execute_fault-Tracks A (FaultSpec.http_response status headers body) h v l = answer-Over A _ _ _ _
  execute_fault-Tracks A (FaultSpec.connection mode) h v l =
      Written-Over _ _ (write_log-Written _ _)
  execute_fault-Tracks A (FaultSpec.timeout none) h v l = Written-Over _ _ (write_log-Written _ _)
  execute_fault-Tracks A (FaultSpec.timeout (some ms)) h v l =
      Written-Over _ _ (write_log-Written _ _)
  execute_fault-Tracks A (FaultSpec.grpc_status status message metadata) h v l = absurd h
