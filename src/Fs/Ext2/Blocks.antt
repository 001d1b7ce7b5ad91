-- ===== src/Fs/Ext2/Blocks.antt =====
-- Sectors and blocks of the ext2 driver: what a write of a block leaves on the device.
use pythonos.Prelude.{
  ℕ, zero, suc, ◌+◌, ◌*◌, ◌≤◌, ◌<◌, ◌≡◌, ◌≢◌, refl, sym, ap, ◌∙◌, [], ◌∷◌, ◌++◌, none, some, ltb,
  Bool-cases, inl, inr, ok, err, Outcome, length, take, drop, set, get_elem?, arith, ◌⊎◌,
  get_elem?-set_self, get_elem?-set_ne, length-take, length-drop, take-append-drop, get_elem?-none,
}
use pythonos.Prelude.Bytes.{Bytes}
use pythonos.Fs.Ext2.Fields.{Ext2Error}
use pythonos.Fs.Ext2.Device.{Sectors, read_sector, write_sector, read_sectors, write_sectors}

pub Outcome-cases :
    {E A : Type 0} (o : Outcome E A) → ((a : A) × (o ≡ ok a)) ⊎ ((e : E) × (o ≡ err e))
Outcome-cases (ok a) = inl (a, refl)
Outcome-cases (err e) = inr (e, refl)

-- A write that succeeds is a write of 512 bytes to a sector of the device.
write_sector-ok :
    (lba : ℕ) (b : Bytes) (dev : Sectors) {dev' : Sectors}
    → write_sector lba b dev ≡ ok dev'
    → (length b ≡ 512) × (lba < length dev) × (dev' ≡ set dev lba b)
unfolding write_sector
write_sector-ok lba b dev h = ground arith

write_sector_run :
    (lba : ℕ) (b : Bytes) (dev : Sectors)
    → length b ≡ 512
    → lba < length dev
    → write_sector lba b dev ≡ ok (set dev lba b)
unfolding write_sector
write_sector_run lba b dev l h = ground arith

read_sector-ok :
    (lba : ℕ) (dev : Sectors) {b : Bytes} → read_sector lba dev ≡ ok b → lba < length dev
unfolding read_sector
read_sector-ok lba dev {b} h = elim (Bool-cases (ltb lba (length dev))) [
  | inl low ↦ ground arith
  | inr high ↦
      let gone : get_elem? dev lba ≡ none = get_elem?-none dev lba (ground arith) in
      absurd (ground (arith, gone))
]

module _ (left lba : ℕ) (b : Bytes) (dev : Sectors) where
  write_sectors_next :
      (dev' : Sectors)
      → write_sector lba (take 512 b) dev ≡ ok dev'
      → write_sectors (suc left) lba b dev ≡ write_sectors left (lba + 1) (drop 512 b) dev'
  unfolding write_sectors
  write_sectors_next dev' e = ground (arith, e)

  write_sectors_stop :
      (x : Ext2Error)
      → write_sector lba (take 512 b) dev ≡ err x
      → write_sectors (suc left) lba b dev ≡ (err x, dev)
  unfolding write_sectors
  write_sectors_stop x e = ground (arith, e)

read_sectors_next :
    (left lba : ℕ) (dev : Sectors) (s ss : Bytes)
    → read_sector lba dev ≡ ok s
    → read_sectors left (lba + 1) dev ≡ ok ss
    → read_sectors (suc left) lba dev ≡ ok (s ++ ss)
unfolding read_sectors
read_sectors_next left lba dev s ss e f = ground (arith, e, f)

-- The parts of a read that succeeds.
read_sectors_parts :
    (left lba : ℕ) (dev : Sectors) {b : Bytes}
    → read_sectors (suc left) lba dev ≡ ok b
    → (lba < length dev) × ((ss : Bytes) × (read_sectors left (lba + 1) dev ≡ ok ss))
unfolding read_sectors
read_sectors_parts left lba dev h = elim (Outcome-cases (read_sector lba dev)) [
  | inl (s, e) ↦ elim (Outcome-cases (read_sectors left (lba + 1) dev)) [
    | inl (ss, f) ↦ (read_sector-ok lba dev e, (ss, f))
    | inr (x, f) ↦ absurd (ground (arith, e, f))
  ]
  | inr (x, e) ↦ absurd (ground (arith, e))
]

read_sector_same :
    (lba : ℕ) (d1 d2 : Sectors)
    → get_elem? d1 lba ≡ get_elem? d2 lba
    → read_sector lba d1 ≡ read_sector lba d2
unfolding read_sector
read_sector_same lba d1 d2 h = rw (h, read_sector) refl

read_sector_at :
    (lba : ℕ) (dev : Sectors) (b : Bytes) → get_elem? dev lba ≡ some b → read_sector lba dev ≡ ok b
unfolding read_sector
read_sector_at lba dev b e = ground (arith, e)

-- Sectors outside of the written range stay.
pub write_sectors_outside :
    (left lba : ℕ) (b : Bytes) (dev : Sectors) (i : ℕ)
    → (i < lba) ⊎ (lba + left ≤ i)
    → get_elem? (write_sectors left lba b dev).1 i ≡ get_elem? dev i
unfolding write_sectors
write_sectors_outside zero lba b dev i out = refl
write_sectors_outside (suc left) lba b dev i out =
    elim (Outcome-cases (write_sector lba (take 512 b) dev)) [
      | inl (dev', e) ↦
          let (_, _, s) = write_sector-ok lba (take 512 b) dev e in
          let ne : lba ≢ i = elim out [ inl lt ↦ omega arith | inr ge ↦ omega arith ] in
          ap (λ r. get_elem? r.1 i) (write_sectors_next left lba b dev dev' e)
          ∙ (write_sectors_outside left (lba + 1) (drop 512 b) dev' i
                (elim out [ inl lt ↦ inl (omega arith) | inr ge ↦ inr (omega arith) ])
              ∙ (ap (λ d. get_elem? d i) s ∙ get_elem?-set_ne dev (take 512 b) ne))
      | inr (x, e) ↦ ap (λ r. get_elem? r.1 i) (write_sectors_stop left lba b dev x e)
    ]

-- Reading depends on the sectors in the range alone.
pub read_sectors_same :
    (left lba : ℕ) (d1 d2 : Sectors)
    → ((i : ℕ) → lba ≤ i → i < lba + left → get_elem? d1 i ≡ get_elem? d2 i)
    → read_sectors left lba d1 ≡ read_sectors left lba d2
unfolding read_sectors
read_sectors_same zero lba d1 d2 h = refl
read_sectors_same (suc left) lba d1 d2 h = ground (
  arith,
  read_sector_same lba d1 d2 (h lba (omega arith) (omega arith)),
  read_sectors_same left (lba + 1) d1 d2 (λ i lo hi. h i (omega arith) (omega arith)),
)

-- What was written is read back.
pub read_sectors-write_sectors :
    (left lba : ℕ) (b : Bytes) (dev : Sectors)
    → length b ≡ left * 512
    → (write_sectors left lba b dev).0 ≡ ok tt
    → read_sectors left lba (write_sectors left lba b dev).1 ≡ ok b
unfolding read_sectors write_sectors
read_sectors-write_sectors zero lba [] dev l h = refl
read_sectors-write_sectors zero lba (x ∷ b) dev l h = absurd (omega arith)
read_sectors-write_sectors (suc left) lba b dev l h =
    elim (Outcome-cases (write_sector lba (take 512 b) dev)) [
      | inl (dev', e) ↦
          let (_, low, s) = write_sector-ok lba (take 512 b) dev e in
          let next = write_sectors_next left lba b dev dev' e in
          let there : get_elem? (write_sectors left (lba + 1) (drop 512 b) dev').1 lba
              ≡ some (take 512 b) =
            write_sectors_outside left (lba + 1) (drop 512 b) dev' lba (inl (omega arith))
            ∙ (ap (λ d. get_elem? d lba) s ∙ get_elem?-set_self dev lba (take 512 b) low) in
          let rest : read_sectors left (lba + 1) (write_sectors left (lba + 1) (drop 512 b) dev').1
              ≡ ok (drop 512 b) =
            read_sectors-write_sectors left (lba + 1) (drop 512 b) dev'
              (omega (arith, length-drop 512 b)) (sym (ap (λ r. r.0) next) ∙ h) in
          ap (λ r. read_sectors (suc left) lba r.1) next
          ∙ (read_sectors_next left lba _ (take 512 b) (drop 512 b)
                (read_sector_at lba _ (take 512 b) there) rest
              ∙ ap ok (take-append-drop 512 b))
      | inr (x, e) ↦ absurd (ground (arith, ap (λ r. r.0) (write_sectors_stop left lba b dev x e)))
    ]

-- Sectors that can be read can be written.
pub write_sectors_run :
    (left lba : ℕ) (b : Bytes) (dev : Sectors) {c : Bytes}
    → length b ≡ left * 512
    → read_sectors left lba dev ≡ ok c
    → (write_sectors left lba b dev).0 ≡ ok tt
unfolding write_sectors
write_sectors_run zero lba b dev l h = refl
write_sectors_run (suc left) lba b dev l h =
    let (low, (ss, rest)) = read_sectors_parts left lba dev h in
    let e = write_sector_run lba (take 512 b) dev (omega (arith, length-take 512 b)) low in
    ap (λ r. r.0) (write_sectors_next left lba b dev (set dev lba (take 512 b)) e)
    ∙ write_sectors_run left (lba + 1) (drop 512 b) (set dev lba (take 512 b)) {c = ss}
        (omega (arith, length-drop 512 b))
        (read_sectors_same left (lba + 1) (set dev lba (take 512 b)) dev
            (λ i lo hi. get_elem?-set_ne dev (take 512 b) (omega (arith, lo)))
          ∙ rest)
