-- ===== src/Broadcast/Steps.antt =====
-- The steps of the goroutines of examples/bench/shared-broadcast/main.go keep the invariant, and one
-- of them can always be made.
use mathlib.Core.Path.{subst}
use valk.Prelude.{
  ℕ, suc, ◌+◌, ◌<◌, ◌≡◌, refl, ◌∙◌, ◌≢◌, ◌⊎◌, sym, ap, inl, inr, some, List, [], ◌∷◌, ◌++◌, Bool,
  true, false, arith, length, length-append, length-set, get_elem?, set, ltb, if◌then◌else◌,
}
use valk.Prelude.Gather.{get_elem?-lt}
use valk.Prelude.Threads.{get_elem?-set_other}
use valk.Prelude.Updates.{sum_of}
use valk.Broadcast.{
  Message, message, Inbox, capacity, looping, sending, closing, waiting, Publisher, State,
  subscribe,
}
use valk.Broadcast.Delivered.{
  add_messages, messages, to_come, has_closed, publish_steps, inbox_steps, IsOpen, InRange,
}

abbrev pub steps : State → ℕ
steps s = publish_steps s.publisher + sum_of inbox_steps s.inboxes

append_assoc : (xs ys zs : List Message) → (xs ++ ys) ++ zs ≡ xs ++ (ys ++ zs)
append_assoc [] ys zs = refl
append_assoc (x ∷ xs) ys zs = ap (λ l. x ∷ l) (append_assoc xs ys zs)

module _ (format_uint : ℕ → List ℕ) (ideal : ℕ) where
  pub record IsSound (s : State) : Type 0 where
    pub four : length s.inboxes ≡ 4
    pub range : InRange s.publisher
    pub opens :
        (b : ℕ) (x : Inbox)
        → get_elem? s.inboxes b ≡ some x
        → IsOpen format_uint ideal s.publisher b x

  -- A step of `main` alone.
  pub change-IsSound :
      (s : State) (p : Publisher)
      → IsSound s
      → InRange p
      → ((b : ℕ) (x : Inbox)
          → b < 4
          → IsOpen format_uint ideal s.publisher b x
          → IsOpen format_uint ideal p b x)
      → IsSound (record { publisher = p; inboxes = s.inboxes })
  change-IsSound s p sound r f = record {
    four = sound.four;
    range = r;
    opens =
        λ b x e. f b x (omega (arith, get_elem?-lt s.inboxes b e, sound.four)) (sound.opens b x e);
  }

  -- A step on inbox `k`.
  pub set-IsSound :
      (s : State) (p : Publisher) (k : ℕ) (x' : Inbox)
      → IsSound s
      → InRange p
      → IsOpen format_uint ideal p k x'
      → ((b : ℕ) (x : Inbox)
          → k ≢ b
          → IsOpen format_uint ideal s.publisher b x
          → IsOpen format_uint ideal p b x)
      → (x : Inbox) → get_elem? s.inboxes k ≡ some x
      → IsSound (record { publisher = p; inboxes = set s.inboxes k x' })
  set-IsSound s p k x' sound r new f x at = record {
    four = length-set s.inboxes k x' ∙ sound.four;
    range = r;
    opens = λ b y e. elim (get_elem?-set_other s.inboxes k x' b y e) [
      | inl (at, same) ↦
          subst (λ c. IsOpen format_uint ideal p c y) at
            (subst (IsOpen format_uint ideal p k) same new)
      | inr (n, old) ↦ f b y n (sound.opens b y old)
    ];
  }

  -- The step of a subscriber, by the fields of its inbox.
  pub subscribe-IsOpen :
      (p : Publisher) (b : ℕ) (buffer : List Message) (closed : Bool) (total : ℕ) (drained : Bool)
      → let x : Inbox = record {
        buffer = buffer;
        closed = closed;
        total = total;
        drained = drained;
      } in
        IsOpen format_uint ideal p b x → IsOpen format_uint ideal p b (subscribe x)
  unfolding subscribe add_messages
  subscribe-IsOpen p b buffer closed total true o = o
  subscribe-IsOpen p b [] false total false o = o
  subscribe-IsOpen p b [] true total false o = record {
    closes = o.closes;
    receives = λ e. (refl, refl);
    room = o.room;
    ends = o.ends;
  }
  subscribe-IsOpen p b (m ∷ buffer) closed total false o = record {
    closes = o.closes;
    receives = λ e. cc;
    room = omega (arith, o.room);
    ends = o.ends;
  }

pub subscribe-steps :
    (buffer : List Message) (closed : Bool) (total : ℕ) (drained : Bool)
    → let x : Inbox = record {
      buffer = buffer;
      closed = closed;
      total = total;
      drained = drained;
    } in
      drained ≡ false
      → (closed ≡ true) ⊎ (0 < length buffer)
      → inbox_steps x ≡ suc (inbox_steps (subscribe x))
unfolding subscribe inbox_steps
subscribe-steps buffer closed total true d h = cc
subscribe-steps [] false total false d (inl c) = cc
subscribe-steps [] false total false d (inr l) = absurd (omega arith)
subscribe-steps [] true total false d h = refl
subscribe-steps (m ∷ buffer) closed total false d h = omega arith

module _ (format_uint : ℕ → List ℕ) (ideal : ℕ) where
  -- The four ways on from `main`'s states.
  pub send-IsOpen :
      (n i k : ℕ) (m : Message) (x : Inbox)
      → IsOpen format_uint ideal (sending n i m k) k x
      → (x.closed ≡ false)
        × (length x.buffer < capacity
            → IsOpen format_uint ideal
                (sending n i m (k + 1))
                k
                (record x { buffer = x.buffer ++ m ∷ [] }))
  unfolding has_closed to_come
  send-IsOpen n i k m x o = (
    o.closes,
    λ l. record {
      closes = o.closes;
      receives = λ d. absurd (let c = (o.receives d).0 in let f = o.closes in cc);
      room = omega (arith, length-append x.buffer (m ∷ []));
      ends =
          let rest = messages format_uint n i in
          let to_send =
            λ (c : Bool). add_messages x.total (x.buffer ++ (if c then rest else m ∷ rest)) in
          let there : ltb k (k + 1) ≡ true = ground arith in
          let here : ltb k k ≡ false = ground arith in
          ap (λ c. add_messages x.total ((x.buffer ++ m ∷ []) ++ (if c then rest else m ∷ rest)))
            there
          ∙ ap (add_messages x.total) (append_assoc x.buffer (m ∷ []) rest)
          ∙ sym (ap to_send here)
          ∙ o.ends;
    },
  )

  pub other-IsOpen :
      (n i k b : ℕ) (m : Message) (x : Inbox)
      → k ≢ b
      → IsOpen format_uint ideal (sending n i m k) b x
      → IsOpen format_uint ideal (sending n i m (k + 1)) b x
  unfolding has_closed to_come
  other-IsOpen n i k b m x ne o = record {
    closes = o.closes;
    receives = o.receives;
    room = o.room;
    ends =
        let rest = messages format_uint n i in
        let same : ltb b (k + 1) ≡ ltb b k = ground arith in
        ap (λ c. add_messages x.total (x.buffer ++ (if c then rest else m ∷ rest))) same ∙ o.ends;
  }

  pub looping-IsOpen :
      (n i b : ℕ) (x : Inbox)
      → IsOpen format_uint ideal (looping (suc n) i) b x
      → IsOpen format_uint ideal (sending n (i + 1) (message format_uint i) 0) b x
  unfolding has_closed to_come
  looping-IsOpen n i b x o = record {
    closes = o.closes;
    receives = o.receives;
    room = o.room;
    ends =
        let rest = messages format_uint n (i + 1) in
        let none_yet : ltb b 0 ≡ false = ground arith in
        ap
          (λ c.
            add_messages x.total (x.buffer ++ (if c then rest else message format_uint i ∷ rest)))
          none_yet
        ∙ o.ends;
  }

  pub looped-IsOpen :
      (n i k b : ℕ) (m : Message) (x : Inbox)
      → b < k
      → IsOpen format_uint ideal (sending n i m k) b x
      → IsOpen format_uint ideal (looping n i) b x
  unfolding has_closed to_come
  looped-IsOpen n i k b m x l o = record {
    closes = o.closes;
    receives = o.receives;
    room = o.room;
    ends =
        let rest = messages format_uint n i in
        let all_sent : ltb b k ≡ true = ground arith in
        sym (ap (λ c. add_messages x.total (x.buffer ++ (if c then rest else m ∷ rest))) all_sent)
        ∙ o.ends;
  }

  -- `main`'s loop ends, an inbox is closed, and the closing loop ends.
  pub ended-IsOpen :
      (i b : ℕ) (x : Inbox)
      → IsOpen format_uint ideal (looping 0 i) b x
      → IsOpen format_uint ideal (closing 0) b x
  unfolding has_closed to_come
  ended-IsOpen i b x o = record {
    closes = let n : ltb b 0 ≡ false = ground arith in o.closes ∙ sym n;
    receives = o.receives;
    room = o.room;
    ends = o.ends;
  }

  pub closed-IsOpen :
      (k b : ℕ) (x : Inbox)
      → k ≢ b
      → IsOpen format_uint ideal (closing k) b x
      → IsOpen format_uint ideal (closing (k + 1)) b x
  unfolding has_closed to_come
  closed-IsOpen k b x ne o = record {
    closes = let n : ltb b (k + 1) ≡ ltb b k = ground arith in o.closes ∙ sym n;
    receives = o.receives;
    room = o.room;
    ends = o.ends;
  }

  pub close-IsOpen :
      (k : ℕ) (x : Inbox)
      → IsOpen format_uint ideal (closing k) k x
      → (x.closed ≡ false)
        × IsOpen format_uint ideal (closing (k + 1)) k (record x { closed = true })
  unfolding has_closed to_come
  close-IsOpen k x o =
      let here : ltb k k ≡ false = ground arith in
      let there : ltb k (k + 1) ≡ true = ground arith in
      (
        o.closes ∙ here,
        record {
          closes = sym there;
          receives = λ d. (refl, (o.receives d).1);
          room = o.room;
          ends = o.ends;
        },
      )

  pub waited-IsOpen :
      (k b : ℕ) (x : Inbox)
      → b < k
      → IsOpen format_uint ideal (closing k) b x
      → IsOpen format_uint ideal waiting b x
  unfolding has_closed to_come
  waited-IsOpen k b x l o = record {
    closes = let n : ltb b k ≡ true = ground arith in o.closes ∙ n;
    receives = o.receives;
    room = o.room;
    ends = o.ends;
  }
