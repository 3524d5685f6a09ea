-- ===== src/Keyboard/Handlers.antt =====
-- The two ways in which src/kernel/keyboard.c takes scancodes.
use asas_os.Common.{
  ℕ, zero, suc, ◌+◌, ◌-◌, ◌%◌, ◌<◌, ◌≡◌, refl, ◌∙◌, ap, Bool, true, false, not, ◌&&◌, ◌||◌, List,
  [], ◌∷◌, ◌++◌, arith, leb, ltb, ◌==◌, ℕ_discrete, if◌then◌else◌, length, get_or, Bool-cases, inl,
  inr,
}
use asas_os.Common.Texts.{codes}
use asas_os.Common.Words.{word}
use asas_os.Keyboard.{
  Keyboard, queue_character, is_release, translate_scancode, inject_scancode, take_scancode,
}
use asas_os.Keyboard.Ring.{IsValid, contents, queue_character_refines}

-- Handling a scancode by interrupt and by polling has the same effect on the shift state and on the
-- ring; the interrupt also counts and remembers the scancode.
pub take_scancode-eq-inject :
    (k : Keyboard) (scancode : ℕ)
    → take_scancode k scancode ≡ record (inject_scancode k scancode) {
      last_scancode = scancode;
      interrupt_count = word (k.interrupt_count + 1);
    }
unfolding take_scancode inject_scancode queue_character
take_scancode-eq-inject k scancode = ground arith

-- The scancodes of a row of keys, from the first on, and the characters that they type.
abbrev Row : Type 0
Row = ℕ × List ℕ

-- The keyboard, row by row, without shift and with it.
abbrev rows : Bool → List Row
rows shift =
    (0x02, codes (if shift then "!@#$%^&*()_+" else "1234567890-="))
    ∷ (0x0E, 8 ∷ 9 ∷ [])
    ∷ (0x10, codes (if shift then "QWERTYUIOP{}" else "qwertyuiop[]"))
    ∷ (0x1C, 10 ∷ [])
    ∷ (0x1E, codes (if shift then "ASDFGHJKL:\"~" else "asdfghjkl;'`"))
    ∷ (0x2B, codes (if shift then "|ZXCVBNM<>?" else "\\zxcvbnm,./"))
    ∷ (0x37, codes "*")
    ∷ (0x39, codes " ")
    ∷ []

-- The character of a key; 0 where it lies on no row.
abbrev character_of : List Row → ℕ → ℕ
character_of [] key = 0
character_of ((start, row) ∷ others) key =
    if leb start key && ltb key (start + length row)
    then get_or row (key - start) 0
    else character_of others key

-- The character that a byte types: a key that is pressed types its own, a release types none.
abbrev pub typed : Bool → ℕ → ℕ
typed shift scancode = if ltb scancode 0x80 then character_of (rows shift) scancode else 0

-- The shift state after a byte: the two shift keys set it, to whether they are pressed.
abbrev pub shift_after : Bool → ℕ → Bool
shift_after shift scancode =
    if scancode % 0x80 == 0x2A || scancode % 0x80 == 0x36 then ltb scancode 0x80 else shift

-- What the branches of the code queue and keep as the shift state.
abbrev branch_character : Bool → ℕ → ℕ
branch_character shift scancode =
    if (scancode == 0x2A || scancode == 0x36) || (scancode == 0xAA || scancode == 0xB6)
    then 0
    else if is_release scancode
    then 0
    else translate_scancode shift scancode

abbrev branch_shift : Bool → ℕ → Bool
branch_shift shift scancode =
    if scancode == 0x2A || scancode == 0x36
    then true
    else if scancode == 0xAA || scancode == 0xB6
    then false
    else shift

-- Whether two functions agree on the numbers from 0 to before a bound.
agree : (ℕ → ℕ) → (ℕ → ℕ) → ℕ → Bool
agree f g zero = true
agree f g (suc bound) = let before = agree f g bound in if f bound == g bound then before else false

agree-eq : (f g : ℕ → ℕ) (bound i : ℕ) → agree f g bound ≡ true → i < bound → f i ≡ g i
unfolding agree
agree-eq f g zero i q b = absurd (omega arith)
agree-eq f g (suc bound) i q b = elim (ℕ_discrete i bound) [
  | yes e ↦ rw e (ground arith)
  | no ne ↦ agree-eq f g bound i (ground arith) (omega arith)
]

characters_agree : (shift : Bool) → agree (branch_character shift) (typed shift) 256 ≡ true
unfolding agree translate_scancode
characters_agree true = refl
characters_agree false = refl

branch_character-typed :
    (shift : Bool) (scancode : ℕ)
    → scancode < 256
    → branch_character shift scancode ≡ typed shift scancode
branch_character-typed shift scancode h =
    agree-eq (branch_character shift) (typed shift) 256 scancode (characters_agree shift) h

branch_shift-after :
    (shift : Bool) (scancode : ℕ)
    → scancode < 256
    → branch_shift shift scancode ≡ shift_after shift scancode
branch_shift-after shift scancode h = ground arith

shift-queue_character :
    (k : Keyboard) (c : ℕ) → (queue_character k c).shift_pressed ≡ k.shift_pressed
unfolding queue_character
shift-queue_character k c = ground arith

inject_scancode-branches :
    (k : Keyboard) (scancode : ℕ)
    → IsValid k
    → ((inject_scancode k scancode).shift_pressed ≡ branch_shift k.shift_pressed scancode)
      × (contents (inject_scancode k scancode) ≡ (
          if not (branch_character k.shift_pressed scancode == 0) && ltb (length (contents k)) 63
          then contents k ++ (branch_character k.shift_pressed scancode ∷ [])
          else contents k))
      × IsValid (inject_scancode k scancode)
unfolding inject_scancode
inject_scancode-branches k scancode v = elim (Bool-cases (scancode == 0x2A || scancode == 0x36)) [
  | inl down ↦ rw down (refl, refl, same v)
  | inr nd ↦ elim (Bool-cases (scancode == 0xAA || scancode == 0xB6)) [
    | inl up ↦ rw (nd, up) (refl, refl, same v)
    | inr nu ↦ elim (Bool-cases (is_release scancode)) [
      | inl released ↦ rw (nd, nu, released) (refl, refl, v)
      | inr nr ↦ elim (Bool-cases (character == 0)) [
        | inl z ↦ rw (nd, nu, nr, z) (refl, refl, v)
        | inr nz ↦
            rw (nd, nu, nr, nz)
              (
                shift-queue_character k character,
                (queue_character_refines k character v).0,
                (queue_character_refines k character v).1,
              )
      ]
    ]
  ]
]
  where
    character : ℕ
    character = translate_scancode k.shift_pressed scancode

    same : {b : Bool} → IsValid k → IsValid (record k { shift_pressed = b })
    same u = record { room = u.room; read_in = u.read_in; write_in = u.write_in }

-- On a valid keyboard a byte sets the shift state to whether the key is pressed where it is one of the
-- two shift keys, and else keeps it. Where it presses a key that has a character on the keyboard, with
-- the shift state before, and fewer than 63 characters wait, that character is appended to them; else
-- the ones that wait are the same. The keyboard stays valid.
pub inject_scancode_lem :
    (k : Keyboard) (scancode : ℕ)
    → IsValid k
    → scancode < 256
    → ((inject_scancode k scancode).shift_pressed ≡ shift_after k.shift_pressed scancode)
      × (contents (inject_scancode k scancode) ≡ (
          if not (typed k.shift_pressed scancode == 0) && ltb (length (contents k)) 63
          then contents k ++ (typed k.shift_pressed scancode ∷ [])
          else contents k))
      × IsValid (inject_scancode k scancode)
inject_scancode_lem k scancode v h =
    let (shift, waiting, v') = inject_scancode-branches k scancode v in
    (
      shift ∙ branch_shift-after k.shift_pressed scancode h,
      waiting
          ∙ ap
              (λ c.
                if not (c == 0) && ltb (length (contents k)) 63
                then contents k ++ (c ∷ [])
                else contents k)
              (branch_character-typed k.shift_pressed scancode h),
      v',
    )
