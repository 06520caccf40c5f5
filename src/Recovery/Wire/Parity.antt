-- ===== src/Recovery/Wire/Parity.antt =====
-- What `parseRecoveryGroup` of internal/ingest/recovery.go accepts.
use Prim.Native.String.{String}
use waga_strim.Base.{
  ℕ, zero, suc, ◌+◌, ◌*◌, ◌≤◌, max, ◌≡◌, refl, ap, inl, inr, subst, Bool-cases, Option-cases,
  Option, none, some, List, [], ◌∷◌, arith, ltb, ◌==◌, not, ◌||◌, length, drop, length-drop, not,
}
use waga_strim.Recovery.{Bytes, GroupId, Entry, Group, header_size}
use waga_strim.Recovery.Wire.{byte, uint16_at, uint32_at, parse_entries, parse_group}

-- Every entry has 12 bytes at least and `n` at most.
abbrev pub AllFit : ℕ → List Entry → Type 0
AllFit n [] = Unit {0}
AllFit n (e ∷ es) = (12 ≤ e.length) × (e.length ≤ n) × AllFit n es

AllFit-mono : (n m : ℕ) (es : List Entry) → n ≤ m → AllFit n es → AllFit m es
AllFit-mono n m [] h a = tt
AllFit-mono n m (e ∷ es) h (p, q, a) = (p, omega arith, AllFit-mono n m es h a)

abbrev pub longest : List Entry → ℕ
longest [] = 0
longest (e ∷ es) = max e.length (longest es)

-- What the loop gives: as many entries as asked for, and a maximum that is the largest length, or the one before the loop.
abbrev Parsed : ℕ → ℕ → Option (List Entry × ℕ) → Type 0
Parsed left maximum none = Unit {0}
Parsed left maximum (some (es, m)) =
    (length es ≡ left) × (m ≡ max maximum (longest es)) × AllFit m es

parse_entries-Parsed :
    (bytes : Bytes) (remote : String) (ssrc left index maximum : ℕ)
    → Parsed left maximum (parse_entries bytes remote ssrc left index maximum)
unfolding parse_entries
parse_entries-Parsed bytes remote ssrc zero index maximum = (refl, omega arith, tt)
parse_entries-Parsed bytes remote ssrc (suc left) index maximum =
    let size = uint16_at bytes (header_size + index * 4 + 2) in
    let before = parse_entries-Parsed bytes remote ssrc left (index + 1) (max maximum size) in
    elim (Bool-cases (ltb size 12)) [
      | inl short ↦ simp short tt
      | inr long ↦
          let rest = parse_entries bytes remote ssrc left (index + 1) (max maximum size) in
          elim (Option-cases rest) [
            | inl e ↦ simp (long, e) tt
            | inr ((es, m), e) ↦
                let (count, above, fit) = subst (Parsed left (max maximum size)) e before in
                simp (long, e) (ap suc count, omega arith, (ground arith, omega arith, fit))
          ]
    ]

-- What the guards of `parse_group` leave.
abbrev Accepted : Option (Group × GroupId) → Type 0
Accepted none = Unit {0}
Accepted (some (g, id)) =
    (2 ≤ length g.entries)
    × (length g.entries ≤ 32)
    × AllFit (length g.parity) g.entries
    × (longest g.entries ≡ length g.parity)

parse_group-Accepted : (bytes : Bytes) (remote : String) → Accepted (parse_group bytes remote)
unfolding parse_group
parse_group-Accepted bytes remote =
    let count = byte bytes 5 in
    let ssrc = uint32_at bytes 8 in
    let start = header_size + count * 4 in
    elim (Bool-cases (ltb (length bytes) header_size || not (byte bytes 4 == 1))) [
      | inl e ↦ simp e tt
      | inr e ↦ elim (Bool-cases (ltb count 2 || (ltb 32 count || ltb (length bytes) start))) [
        | inl e' ↦ simp (e, e') tt
        | inr e' ↦
            let parsed = parse_entries-Parsed bytes remote ssrc count 0 0 in
            elim (Option-cases (parse_entries bytes remote ssrc count 0 0)) [
              | inl f ↦ simp (e, e', f) tt
              | inr ((es, m), f) ↦
                  let (same, top, fit) = subst (Parsed count 0) f parsed in
                  elim (Bool-cases ((m == 0) || not (length bytes == start + m))) [
                    | inl e'' ↦ simp (e, e', f, e'') tt
                    | inr e'' ↦
                        let rest : length (drop start bytes) ≡ m =
                          ground (arith, length-drop start bytes) in
                        simp (e, e', f, e'')
                          (
                            ground (arith, same),
                            ground (arith, same),
                            AllFit-mono m _ es (omega (arith, rest)) fit,
                            omega (arith, rest, top),
                          )
                  ]
            ]
      ]
    ]

-- Whatever the datagram, a group that is parsed has 2 to 32 entries, each of 12 bytes at least and of no
-- more than the parity, and the longest of them is as long as the parity: taking a packet of an entry's
-- length out of the parity stays within it, and no byte of the parity is beyond all packets.
pub parsed_group_fits :
    (bytes : Bytes) (remote : String) (g : Group) (id : GroupId)
    → parse_group bytes remote ≡ some (g, id)
    → (2 ≤ length g.entries)
      × (length g.entries ≤ 32)
      × AllFit (length g.parity) g.entries
      × (longest g.entries ≡ length g.parity)
parsed_group_fits bytes remote g id h = subst Accepted h (parse_group-Accepted bytes remote)
