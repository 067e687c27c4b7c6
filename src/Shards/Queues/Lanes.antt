-- ===== src/Shards/Queues/Lanes.antt =====
-- internal/shards/shards.go and worker.go: what a shard's queues keep.
use retrosampler.Prelude.{
  ℕ, ◌+◌, ◌≡◌, ◌≢◌, refl, sym, ap, ◌∙◌, arith, Bool, true, false, List, [], ◌∷◌, ◌++◌, append_assoc,
  length, length-append,
}
use retrosampler.Shards.Queues.Defs.{
  queue_depth, FragBuf, Worker, waiting, handling, draining, drain_handling, done, Lane, take_free,
  send_work, receive_work, send_free, new_lane,
}
use retrosampler.Shards.Queues.Steps.{
  Works, receive, recycle, tick, stopped, drain_receive, drain_recycle, drained,
}

-- The buffer that the worker holds.
abbrev pub in_hand : Worker → List FragBuf
in_hand waiting = []
in_hand (handling fb) = fb ∷ []
in_hand draining = []
in_hand (drain_handling fb) = fb ∷ []
in_hand done = []

abbrev pub is_ending : Worker → Bool
is_ending waiting = false
is_ending (handling fb) = false
is_ending draining = true
is_ending (drain_handling fb) = true
is_ending done = true

-- Of a lane, where senders hold `held` of its buffers: none of its 64 buffers is lost, the worker handles what
-- was accepted in its order, ends only on stop, and leaves nothing in the queue.
pub record IsLane (stop : Bool) (held : ℕ) (l : Lane) : Type 0 where
  pub joint : length l.free + length l.work + length (in_hand l.worker) + held ≡ queue_depth
  pub order : l.accepted ≡ l.handled ++ (in_hand l.worker ++ l.work)
  pub ending : is_ending l.worker ≡ true → stop ≡ true
  pub empty : l.worker ≡ done → l.work ≡ []

pub take_free-IsLane :
    (stop : Bool) (held : ℕ) (l : Lane) (fb : FragBuf) (rest : List FragBuf)
    → IsLane stop held l
    → l.free ≡ fb ∷ rest
    → IsLane stop (held + 1) (take_free rest l)
unfolding take_free
take_free-IsLane stop held l fb rest h e = record {
  joint = omega (arith, h.joint, ap length e);
  order = h.order;
  ending = h.ending;
  empty = h.empty;
}

-- A send to a lane whose worker has not returned.
pub send_work-IsLane :
    (stop : Bool) (held : ℕ) (l : Lane) (fb : FragBuf)
    → IsLane stop (held + 1) l
    → is_ending l.worker ≡ false
    → IsLane stop held (send_work fb l)
unfolding send_work
send_work-IsLane stop held l fb h going = record {
  joint = omega (arith, h.joint, length-append l.work (fb ∷ []));
  order =
      ap (λ a. a ++ (fb ∷ [])) h.order
      ∙ append_assoc l.handled (in_hand l.worker ++ l.work) (fb ∷ [])
      ∙ ap (λ a. l.handled ++ a) (append_assoc (in_hand l.worker) l.work (fb ∷ []));
  ending = h.ending;
  empty = λ e. ground (arith, e, going);
}

-- A receive moves the oldest accepted buffer from the queue to the worker's hand.
receive_work-IsLane :
    (stop : Bool) (held : ℕ) (l : Lane) (fb : FragBuf) (rest : List FragBuf) (w : Worker)
    → IsLane stop held l
    → in_hand l.worker ≡ []
    → in_hand w ≡ fb ∷ []
    → is_ending w ≡ is_ending l.worker
    → l.work ≡ fb ∷ rest
    → IsLane stop held (receive_work fb rest w l)
unfolding receive_work
receive_work-IsLane stop held l fb rest w h free_hand hand same e = record {
  joint = omega (arith, h.joint, ap length e, ap length free_hand, ap length hand);
  order = h.order ∙ ap (λ a. l.handled ++ a) (ground (arith, e, free_hand, hand));
  ending = λ b. h.ending (sym same ∙ b);
  empty = λ b. ground (arith, ap in_hand b, hand);
}

-- The end of handle moves the buffer to the free ring.
send_free-IsLane :
    (stop : Bool) (held : ℕ) (l : Lane) (fb left : FragBuf) (w : Worker)
    → IsLane stop held l
    → in_hand l.worker ≡ fb ∷ []
    → in_hand w ≡ []
    → is_ending w ≡ is_ending l.worker
    → w ≢ done
    → IsLane stop held (send_free fb left w l)
unfolding send_free
send_free-IsLane stop held l fb left w h hand free_hand same going = record {
  joint =
      omega (arith, h.joint, length-append l.free (left ∷ []), ap length free_hand, ap length hand);
  order =
      h.order
      ∙ ap (λ a. l.handled ++ (a ++ l.work)) hand
      ∙ sym (append_assoc l.handled (fb ∷ []) l.work)
      ∙ ap (λ a. (l.handled ++ (fb ∷ [])) ++ (a ++ l.work)) (sym free_hand);
  ending = λ b. h.ending (sym same ∙ b);
  empty = λ b. absurd (going b);
}

-- A change of the worker's place, with nothing in its hand before and after.
turn-IsLane :
    (stop : Bool) (held : ℕ) (l : Lane) (w : Worker)
    → IsLane stop held l
    → in_hand l.worker ≡ []
    → in_hand w ≡ []
    → (is_ending w ≡ true → stop ≡ true)
    → (w ≡ done → l.work ≡ [])
    → IsLane stop held (record l { worker = w })
turn-IsLane stop held l w h hand hand' ending empty = record {
  joint = omega (arith, h.joint, ap length hand, ap length hand');
  order = h.order ∙ ap (λ a. l.handled ++ (a ++ l.work)) (hand ∙ sym hand');
  ending = ending;
  empty = empty;
}

-- Each step of a worker keeps its lane.
pub Works-IsLane :
    {stop : Bool} {held : ℕ} {l l' : Lane} {w : Worker}
    → w ≡ l.worker
    → Works stop l w l'
    → IsLane stop held l
    → IsLane stop held l'
Works-IsLane {stop} {held} {l} at (receive fb rest e) h =
    receive_work-IsLane stop held l fb rest (handling fb) h (ap in_hand (sym at)) refl
      (ap is_ending at) e
Works-IsLane {stop} {held} {l} at (recycle fb left room) h =
    send_free-IsLane stop held l fb left waiting h (ap in_hand (sym at)) refl (ap is_ending at)
      (λ e. cc)
Works-IsLane {l} at (tick cause) h = record {
  joint = h.joint;
  order = h.order;
  ending = h.ending;
  empty = h.empty;
}
Works-IsLane {stop} {held} {l} at (stopped e) h =
    turn-IsLane stop held l draining h (ap in_hand (sym at)) refl (λ b. e) (λ b. cc)
Works-IsLane {stop} {held} {l} at (drain_receive fb rest e) h =
    receive_work-IsLane stop held l fb rest (drain_handling fb) h (ap in_hand (sym at)) refl
      (ap is_ending at) e
Works-IsLane {stop} {held} {l} at (drain_recycle fb left room) h =
    send_free-IsLane stop held l fb left draining h (ap in_hand (sym at)) refl (ap is_ending at)
      (λ e. cc)
Works-IsLane {stop} {held} {l} at (drained e) h =
    turn-IsLane stop held l done h (ap in_hand (sym at)) refl
      (λ b. h.ending (ap is_ending (sym at))) (λ b. e)

-- The lane that New makes.
pub new_lane-IsLane : (stop : Bool) → IsLane stop 0 new_lane
new_lane-IsLane stop = record {
  joint = omega arith;
  order = refl;
  ending = λ e. cc;
  empty = λ e. refl;
}
