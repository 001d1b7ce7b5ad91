-- ===== src/Drivers/Keyboard/Buffer.antt =====
-- What the queue of the keyboard holds while nobody reads.
use pythonos.Prelude.{
  ℕ, zero, suc, ◌<◌, ◌≤◌, ◌≡◌, refl, sym, ap, subst, ◌%◌, ◌∙◌, List, [], ◌∷◌, ◌++◌, Option, none,
  some, Bool-cases, inl, inr, ◌&&◌, ◌||◌, not, leb, bytes_eq, length, take, lookup, length-append,
  length-take, append-nil, append_assoc, Eq-ℕ, arith,
}
use pythonos.Prelude.Text.{Text, codes}
use pythonos.Asyncio.Queues.Defs.{Queue, full, put_nowait, wakeup_getter}
use pythonos.Drivers.Keyboard.Defs.{
  KeyEvent, Keyboard, new_keyboard, scancode_map, is_release, event_of, emit, handle_key,
  handle_entry, handle_irq,
}

abbrev one_or_none : Option KeyEvent → List KeyEvent
one_or_none none = []
one_or_none (some e) = e ∷ []

-- The events that the subscribers get for these codes, and the driver.
unfoldable pub handle_all : List ℕ → Keyboard → List KeyEvent × Keyboard
unfolding handle_irq
handle_all [] kb = ([], kb)
handle_all (sc ∷ scs) kb =
    let (e, kb') = handle_irq sc kb in
    let (es, kb'') = handle_all scs kb' in (one_or_none e ++ es, kb'')

module _ {A : Type 0} where
  full-take : (n : ℕ) (xs ys : List A) → n ≤ length xs → take n (xs ++ ys) ≡ take n xs
  full-take zero xs ys h = refl
  full-take (suc n) [] ys h = absurd (omega (arith, h))
  full-take (suc n) (x ∷ xs) ys h = ap (◌∷◌ x) (full-take n xs ys (omega (arith, h)))

  short-take : (n : ℕ) (xs : List A) → length xs ≤ n → take n xs ≡ xs
  short-take zero [] h = refl
  short-take zero (x ∷ xs) h = absurd (omega (arith, h))
  short-take (suc n) [] h = refl
  short-take (suc n) (x ∷ xs) h = ap (◌∷◌ x) (short-take n xs (omega (arith, h)))

-- The queue holds the first of the events so far.
record IsBuffer (es : List KeyEvent) (kb : Keyboard) : Type 0 where
  size : kb.queue.maxsize ≡ 256
  held : kb.queue.items ≡ take 256 es

full_lem : (q : Queue KeyEvent) → q.maxsize ≡ 256 → full KeyEvent q ≡ leb 256 (length q.items)
full_lem q s = rw s refl

emit-IsBuffer :
    (es : List KeyEvent) (e : KeyEvent) (kb : Keyboard)
    → IsBuffer es kb
    → IsBuffer (es ++ e ∷ []) (emit e kb).1
unfolding emit put_nowait wakeup_getter
emit-IsBuffer es e kb v =
    let there : length kb.queue.items ≡ length (take 256 es) = ap length v.held in
    elim (Bool-cases (full KeyEvent kb.queue)) [
      | inl f ↦
          let many : 256 ≤ length es =
            ground (arith, sym (full_lem kb.queue v.size) ∙ f, there, length-take 256 es) in
          rw f (record { size = v.size; held = v.held ∙ sym (full-take 256 es (e ∷ []) many) })
      | inr f ↦
          let few : length es < 256 =
            ground (arith, sym (full_lem kb.queue v.size) ∙ f, there, length-take 256 es) in
          rw f (record {
            size = v.size;
            held =
                ap (λ xs. xs ++ e ∷ []) (v.held ∙ short-take 256 es (omega (arith, few)))
                ∙ sym
                    (short-take 256 (es ++ e ∷ []) (omega (arith, few, length-append es (e ∷ []))));
          })
    ]

quiet-IsBuffer :
    (es : List KeyEvent) (kb kb' : Keyboard)
    → kb'.queue ≡ kb.queue
    → IsBuffer es kb
    → IsBuffer (es ++ []) kb'
quiet-IsBuffer es kb kb' q v = record {
  size = ap (λ (k : Queue KeyEvent). k.maxsize) q ∙ v.size;
  held = ap (λ (k : Queue KeyEvent). k.items) q ∙ v.held ∙ ap (take 256) (sym (append-nil es));
}

key-IsBuffer :
    (es : List KeyEvent) (sc : ℕ) (entry : Text × Text) (kb : Keyboard)
    → IsBuffer es kb
    → IsBuffer (es ++ one_or_none (handle_key sc entry kb).0) (handle_key sc entry kb).1
unfolding handle_key emit
key-IsBuffer es sc entry kb v =
    elim (Bool-cases (bytes_eq entry.0 (codes "lshift") || bytes_eq entry.0 (codes "rshift"))) [
      | inl a ↦ rw a (quiet-IsBuffer es kb _ refl v)
      | inr a ↦ elim (Bool-cases (bytes_eq entry.0 (codes "lctrl"))) [
        | inl b ↦ rw (a, b) (quiet-IsBuffer es kb _ refl v)
        | inr b ↦ elim (Bool-cases (bytes_eq entry.0 (codes "lalt"))) [
          | inl c ↦ rw (a, b, c) (quiet-IsBuffer es kb _ refl v)
          | inr c ↦ elim (Bool-cases (bytes_eq entry.0 (codes "capslock") && not (is_release sc))) [
            | inl d ↦ rw (a, b, c, d) (quiet-IsBuffer es kb _ refl v)
            | inr d ↦ rw (a, b, c, d) (emit-IsBuffer es (event_of sc entry kb) kb v)
          ]
        ]
      ]
    ]

entry-IsBuffer :
    (es : List KeyEvent) (sc : ℕ) (o : Option (Text × Text)) (kb : Keyboard)
    → IsBuffer es kb
    → IsBuffer (es ++ one_or_none (handle_entry sc o kb).0) (handle_entry sc o kb).1
unfolding handle_entry
entry-IsBuffer es sc none kb v = quiet-IsBuffer es kb kb refl v
entry-IsBuffer es sc (some entry) kb v = key-IsBuffer es sc entry kb v

irq-IsBuffer :
    (es : List KeyEvent) (sc : ℕ) (kb : Keyboard)
    → IsBuffer es kb
    → IsBuffer (es ++ one_or_none (handle_irq sc kb).0) (handle_irq sc kb).1
unfolding handle_irq
irq-IsBuffer es sc kb v = entry-IsBuffer es sc (lookup (sc % 128) scancode_map) kb v

all-IsBuffer :
    (scs : List ℕ) (es : List KeyEvent) (kb : Keyboard)
    → IsBuffer es kb
    → IsBuffer (es ++ (handle_all scs kb).0) (handle_all scs kb).1
unfolding handle_all
all-IsBuffer [] es kb v = quiet-IsBuffer es kb kb refl v
all-IsBuffer (sc ∷ scs) es kb v =
    let (e, kb') = handle_irq sc kb in
    subst (λ xs. IsBuffer xs (handle_all scs kb').1)
      (append_assoc es (one_or_none e) (handle_all scs kb').0)
      (all-IsBuffer scs (es ++ one_or_none e) kb' (irq-IsBuffer es sc kb v))

-- Whatever codes arrive while nobody reads, the queue holds the first 256 of the events that the subscribers
-- get, in order: later ones are dropped, and none before.
pub handle_all-take :
    (scs : List ℕ)
    → (handle_all scs new_keyboard).1.queue.items ≡ take 256 (handle_all scs new_keyboard).0
handle_all-take scs = (all-IsBuffer scs [] new_keyboard (record { size = refl; held = refl })).held
