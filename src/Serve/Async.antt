-- ===== src/Serve/Async.antt =====
-- handleIOAsync of server.go: a reader, a hundred workers and a writer, with two channels between
-- them, as a step relation. A handler runs as one step.
use go9p.Base.{
  ℕ, suc, ◌+◌, ◌-◌, ◌≤◌, ◌<◌, List, [], ◌∷◌, ◌++◌, length, Bool, true, false, ◌==◌, if◌then◌else◌,
  ◌≡◌, refl, ap, arith, bytes, same_text,
}
use mathlib.Core.Path.{subst}
use go9p.Proto.Header.Types.{rerror_type}
use go9p.Proto.Messages.Attach.{TAttach}
use go9p.Proto.Call.{FCall, get_tag, header_of, tattach, rerror}
use go9p.Serve.{Srv, answer, no_answer, failed, handle_call}
use go9p.Serve.Tagged.{Tagging, AnswersTag, handle_call-AnswersTag}

-- What the reader does with a call, given the name in the client's certificate.
pub data Admission : Type 0 where
  accepted : FCall → Admission
  refused : FCall → Admission

invalid_user : TAttach → FCall
invalid_user t = rerror (record {
  header = record { type = rerror_type; tag = t.header.tag };
  ename = bytes "invalid user " ++ t.uname;
})

-- `ta.Uname = uname` stores what is there already.
unfoldable pub admit : List ℕ → FCall → Admission
unfolding invalid_user
admit uname (tattach t) =
    if same_text uname []
    then accepted (tattach t)
    else if same_text t.uname uname
    then accepted (tattach t)
    else refused (invalid_user t)
admit uname f = accepted f

-- The goroutines and channels of one connection.
pub record Pipeline (S : Type 0) : Type 0 where
  pub reading : Bool
  -- all calls that ParseCall has returned, the last one first
  pub parsed : List FCall
  pub incoming : List FCall
  -- workers that have not returned
  pub workers : ℕ
  -- the calls and the answers that workers have in hand
  pub busy : List FCall
  pub done : List FCall
  pub outgoing : List FCall
  pub written : List FCall
  pub state : S

unfoldable pub new_pipeline : {S : Type 0} → S → Pipeline S
new_pipeline s = record {
  reading = true;
  parsed = [];
  incoming = [];
  workers = 100;
  busy = [];
  done = [];
  outgoing = [];
  written = [];
  state = s;
}

-- What the goroutines do, in any order. A call that finds `incoming` full panics, which ends the
-- program and is no step; so does a handler that panics.
pub data Move {S : Type 0} (srv : Srv S) (uname : List ℕ) : Pipeline S → Pipeline S → Type 0 where
  queue :
      (p : Pipeline S) (f f' : FCall)
      → p.reading ≡ true
      → admit uname f ≡ accepted f'
      → length p.incoming < 100
      → Move srv uname p (record p { parsed = f ∷ p.parsed; incoming = p.incoming ++ (f' ∷ []) })
  refuse :
      (p : Pipeline S) (f e : FCall)
      → p.reading ≡ true
      → admit uname f ≡ refused e
      → length p.outgoing < 100
      → Move srv uname p
          (record p { reading = false; parsed = f ∷ p.parsed; outgoing = p.outgoing ++ (e ∷ []) })
  stop_reading : (p : Pipeline S) → Move srv uname p (record p { reading = false })
  take_call :
      (p : Pipeline S) (f : FCall) (rest : List FCall)
      → p.incoming ≡ f ∷ rest
      → length p.busy + length p.done < p.workers
      → Move srv uname p (record p { incoming = rest; busy = f ∷ p.busy })
  handle :
      (p : Pipeline S) (f a : FCall) (earlier later : List FCall) (s : S)
      → p.busy ≡ earlier ++ (f ∷ later)
      → handle_call srv f p.state ≡ (answer a, s)
      → Move srv uname p (record p { busy = earlier ++ later; done = a ∷ p.done; state = s })
  drop_flushed :
      (p : Pipeline S) (f : FCall) (earlier later : List FCall) (s : S)
      → p.busy ≡ earlier ++ (f ∷ later)
      → handle_call srv f p.state ≡ (no_answer, s)
      → Move srv uname p (record p { busy = earlier ++ later; state = s })
  give_out :
      (p : Pipeline S) (f : FCall) (earlier later : List FCall) (s : S)
      → p.busy ≡ earlier ++ (f ∷ later)
      → handle_call srv f p.state ≡ (failed, s)
      → Move srv uname p (record p { busy = earlier ++ later; workers = p.workers - 1; state = s })
  send :
      (p : Pipeline S) (a : FCall) (earlier later : List FCall)
      → p.done ≡ earlier ++ (a ∷ later)
      → length p.outgoing < 100
      → Move srv uname p (record p { done = earlier ++ later; outgoing = p.outgoing ++ (a ∷ []) })
  write :
      (p : Pipeline S) (a : FCall) (rest : List FCall)
      → p.outgoing ≡ a ∷ rest
      → Move srv uname p (record p { outgoing = rest; written = a ∷ p.written })

pub data Served {S : Type 0} (srv : Srv S) (uname : List ℕ) (s : S) : Pipeline S → Type 0 where
  started : Served srv uname s (new_pipeline s)
  moved : (p q : Pipeline S) → Served srv uname s p → Move srv uname p q → Served srv uname s q

-- How many of the messages have the tag.
abbrev pub tagged : ℕ → List FCall → ℕ
tagged tag [] = 0
tagged tag (f ∷ fs) = let rest = tagged tag fs in if get_tag f == tag then suc rest else rest

tagged-append :
    (tag : ℕ) (fs gs : List FCall) → tagged tag (fs ++ gs) ≡ tagged tag fs + tagged tag gs
tagged-append tag [] gs = omega arith
tagged-append tag (f ∷ fs) gs = ground (arith, tagged-append tag fs gs)

-- The call, or the answer that it has become, is in one place at most.
record Balanced {S : Type 0} (p : Pipeline S) : Type 0 where
  once :
      (tag : ℕ)
      → tagged tag p.incoming
          + tagged tag p.busy
          + tagged tag p.done
          + tagged tag p.outgoing
          + tagged tag p.written
        ≤ tagged tag p.parsed

AdmitsTag : ℕ → Admission → Type 0
AdmitsTag tag (accepted f) = get_tag f ≡ tag
AdmitsTag tag (refused e) = get_tag e ≡ tag

AdmitsTag-if :
    (b : Bool) (tag : ℕ) (x y : Admission)
    → AdmitsTag tag x
    → AdmitsTag tag y
    → AdmitsTag tag (if b then x else y)
AdmitsTag-if true tag x y h k = h
AdmitsTag-if false tag x y h k = k

AdmitsTag-admit : (uname : List ℕ) (f : FCall) → AdmitsTag (get_tag f) (admit uname f)
unfolding admit AdmitsTag get_tag header_of
AdmitsTag-admit uname (tattach t) =
    AdmitsTag-if (same_text uname []) t.header.tag (accepted (tattach t)) _ refl (
      AdmitsTag-if (same_text t.uname uname) t.header.tag (accepted (tattach t))
        (refused (invalid_user t)) refl refl)
AdmitsTag-admit uname _ = refl

tag-accepted :
    (uname : List ℕ) (f f' : FCall) → admit uname f ≡ accepted f' → get_tag f' ≡ get_tag f
unfolding AdmitsTag
tag-accepted uname f f' e = subst (AdmitsTag (get_tag f)) e (AdmitsTag-admit uname f)

tag-refused : (uname : List ℕ) (f e : FCall) → admit uname f ≡ refused e → get_tag e ≡ get_tag f
unfolding AdmitsTag
tag-refused uname f e h = subst (AdmitsTag (get_tag f)) h (AdmitsTag-admit uname f)

module _ {S : Type 0} (srv : Srv S) (uname : List ℕ) (g : Tagging srv) where
  tag-answer :
      (f a : FCall) (s s' : S) → handle_call srv f s ≡ (answer a, s') → get_tag a ≡ get_tag f
  tag-answer f a s s' e =
      subst (λ o. AnswersTag (get_tag f) o.0) e (handle_call-AnswersTag srv f s g)

  -- Moving a message of a tag from one list to another.
  moved_on :
      (tag : ℕ) (f a : FCall) (from earlier later : List FCall)
      → from ≡ earlier ++ (f ∷ later)
      → get_tag a ≡ get_tag f
      → tagged tag from ≡ tagged tag (earlier ++ later) + tagged tag (a ∷ [])
  moved_on tag f a from earlier later e same = ground (
    arith,
    ap (tagged tag) e,
    same,
    tagged-append tag earlier (f ∷ later),
    tagged-append tag earlier later,
  )

  Balanced-move : (p q : Pipeline S) → Move srv uname p q → Balanced p → Balanced q
  Balanced-move p _ (queue _ f f' r e room) b = record {
    once = λ tag.
        ground
          (arith, b.once tag, tag-accepted uname f f' e, tagged-append tag p.incoming (f' ∷ []));
  }
  Balanced-move p _ (refuse _ f e r h room) b = record {
    once = λ tag.
        ground (arith, b.once tag, tag-refused uname f e h, tagged-append tag p.outgoing (e ∷ []));
  }
  Balanced-move p _ (stop_reading _) b = record { once = b.once }
  Balanced-move p _ (take_call _ f rest e free) b = record {
    once = λ tag. ground (arith, b.once tag, ap (tagged tag) e);
  }
  Balanced-move p _ (handle _ f a earlier later s e h) b = record {
    once = λ tag.
        ground
          (arith, b.once tag, moved_on tag f a p.busy earlier later e (tag-answer f a p.state s h));
  }
  Balanced-move p _ (drop_flushed _ f earlier later s e h) b = record {
    once = λ tag. ground (arith, b.once tag, moved_on tag f f p.busy earlier later e refl);
  }
  Balanced-move p _ (give_out _ f earlier later s e h) b = record {
    once = λ tag. ground (arith, b.once tag, moved_on tag f f p.busy earlier later e refl);
  }
  Balanced-move p _ (send _ a earlier later e room) b = record {
    once = λ tag. ground (
      arith,
      b.once tag,
      moved_on tag a a p.done earlier later e refl,
      tagged-append tag p.outgoing (a ∷ []),
    );
  }
  Balanced-move p _ (write _ a rest e) b = record {
    once = λ tag. ground (arith, b.once tag, ap (tagged tag) e);
  }

  Balanced-Served : (s : S) (p : Pipeline S) → Served srv uname s p → Balanced p
  unfolding new_pipeline
  Balanced-Served s _ started = record { once = λ tag. omega arith }
  Balanced-Served s _ (moved p q h m) = Balanced-move p q m (Balanced-Served s p h)

  -- However the goroutines of handleIOAsync run, at any time and for any tag, no more messages of the
  -- tag have been written than calls of the tag have been read: no call is answered twice, and no
  -- answer has a tag that no call had. The handlers answer with the tag of the call.
  pub written-parsed :
      (s : S) (p : Pipeline S) (tag : ℕ)
      → Served srv uname s p
      → tagged tag p.written ≤ tagged tag p.parsed
  written-parsed s p tag h = omega (arith, (Balanced-Served s p h).once tag)
