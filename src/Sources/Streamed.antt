-- ===== src/Sources/Streamed.antt =====
-- scripts/sources.py: `unpack_selected`, which writes the pinned files and no others.
use artbox.Base.{
  ℕ, ◌&&◌, ◌||◌, not, true, some, List, [], ◌∷◌, ◌++◌, ok, ◌≡◌, ◌⊎◌, refl, sym, ap, ◌∙◌,
  Option-cases, inl, inr, >>=-elim, require-elim, ok-injective, and-eq-true,
}
use artbox.Base.Int.{leb_ℤ}
use artbox.Base.Text.{◌≟◌, ≟_iff}
use artbox.Paths.{contains, parts, as_posix}
use artbox.Paths.Laws.{Every, Every-append}
use artbox.Sources.Archive.{is_regular, is_directory, Member, is_unsafe, root_of, first_is, rest_of}
use artbox.Sources.Plan.{keys, Distinct, keys-append, Distinct-append, not-false, three}
use artbox.Sources.Selection.{
  Pin, Selected, keys_of, pin_of, Stream, no_stream, all_in, write_pinned, stream_below,
  stream_member, stream_members, unpack_selected,
}

-- What is written at a path: a regular member of the size that is pinned there.
pub record IsWritten (fold : List ℕ → List ℕ) (selected : Selected) (w : List ℕ × Member)
    : Type 0 where
  pub pin : Pin
  pub pinned : pin_of (fold w.0) selected ≡ some pin
  pub path : w.0 ≡ pin.path
  pub file : is_regular w.1.kind ≡ true
  pub size : (leb_ℤ w.1.size pin.bytes ≡ true) × (leb_ℤ pin.bytes w.1.size ≡ true)

-- What is written is one of the members, at the path that its name has below the root of the archive.
abbrev pub FromMembers : List Member → List ℕ × Member → Type 0
FromMembers [] w = ⊥
FromMembers (m ∷ ms) w = ((w.1 ≡ m) × (w.0 ≡ as_posix (rest_of (parts m.name)))) ⊎ FromMembers ms w

pub record IsUnpacked (fold : List ℕ → List ℕ) (selected : Selected) (members : List Member)
    (written : List (List ℕ × Member)) : Type 0 where
  pub from : Every (FromMembers members) written
  pub exact : Every (IsWritten fold selected) written
  pub distinct : Distinct (keys fold written)
  pub complete : Every (λ key. contains key (keys fold written) ≡ true) (keys_of selected)

pub all_in-Every :
    (xs ys : List (List ℕ)) → all_in xs ys ≡ true → Every (λ x. contains x ys ≡ true) xs
unfolding all_in
all_in-Every [] ys h = tt
all_in-Every (x ∷ xs) ys h =
    let (here, rest) = and-eq-true (contains x ys) (all_in xs ys) h in
    (here, all_in-Every xs ys rest)

module _ (fold : List ℕ → List ℕ) (selected : Selected) where
  record IsStream (stream : Stream) : Type 0 where
    exact : Every (IsWritten fold selected) stream.written
    names_seen : stream.seen ≡ keys fold stream.written
    distinct : Distinct stream.seen

  moved-IsStream :
      (stream : Stream) (prefix : List ℕ)
      → IsStream stream
      → IsStream (record stream { prefix = some prefix })
  moved-IsStream stream prefix s = record {
    exact = s.exact;
    names_seen = s.names_seen;
    distinct = s.distinct;
  }

  write_pinned-IsStream :
      (stream out : Stream) (prefix name : List ℕ) (pin : Pin) (member : Member)
      → pin_of (fold name) selected ≡ some pin
      → IsStream stream
      → write_pinned fold selected stream prefix name pin member ≡ ok out
      → IsStream out
  unfolding write_pinned
  write_pinned-IsStream stream out prefix name pin member pinned s e =
      require-elim
        (not (
          contains (fold name) stream.seen
          || not (name ≟ pin.path)
          || not (is_regular member.kind)))
        "Duplicate, aliased or non-regular selected source" e
        λ valid e₁.
          require-elim (leb_ℤ member.size pin.bytes && leb_ℤ pin.bytes member.size)
            "Selected archive file size differs from the pin" e₁
            λ sized e₂.
              let (fresh, spelled, regular) = three valid in
              let same : name ≡ pin.path = (≟_iff name pin.path).0 (not-false spelled) in
              let is : IsWritten fold selected (pin.path, member) = record {
                pin = pin;
                pinned = rw same at pinned;
                path = refl;
                file = not-false regular;
                size =
                    and-eq-true (leb_ℤ member.size pin.bytes) (leb_ℤ pin.bytes member.size) sized;
              } in
              rw (sym (ok-injective e₂)) (record {
                exact =
                    Every-append (IsWritten fold selected) stream.written (pin.path, member) s.exact
                      is;
                names_seen =
                    ap (λ (n : List ℕ). stream.seen ++ fold n ∷ []) same
                    ∙ rw s.names_seen (keys-append fold stream.written (pin.path, member));
                distinct = Distinct-append stream.seen (fold name) s.distinct fresh;
              })

  stream_below-IsStream :
      (stream out : Stream) (prefix : List ℕ) (words : List (List ℕ)) (member : Member)
      → IsStream stream
      → stream_below fold selected stream prefix words member ≡ ok out
      → IsStream out
  unfolding stream_below
  stream_below-IsStream stream out prefix [] member s e =
      require-elim (is_directory member.kind) "Source archive root is not a directory" e
        λ _ e₁. rw (sym (ok-injective e₁)) (moved-IsStream stream prefix s)
  stream_below-IsStream stream out prefix (w ∷ ws) member s e =
      elim (Option-cases (pin_of (fold (as_posix (w ∷ ws))) selected)) [
        | inl unpinned ↦
            let same : (record stream { prefix = some prefix }) ≡ out =
              ok-injective (rw (unpinned, stream_below) at e) in
            rw (sym same) (moved-IsStream stream prefix s)
        | inr (pin, pinned) ↦
            write_pinned-IsStream stream out prefix (as_posix (w ∷ ws)) pin member pinned s
              (rw (pinned, stream_below) at e)
      ]

  stream_members-IsStream :
      (members : List Member) (stream out : Stream)
      → IsStream stream
      → stream_members fold selected stream members ≡ ok out
      → IsStream out
  unfolding stream_members stream_member
  stream_members-IsStream [] stream out s e = rw (sym (ok-injective e)) s
  stream_members-IsStream (member ∷ members) stream out s e =
      let prefix = root_of stream.prefix (parts member.name) in
      >>=-elim (stream_member fold selected stream member) e λ next streamed e₁.
        require-elim (not (is_unsafe member.name)) "Unsafe source archive path" streamed λ _ e₂.
          require-elim (first_is prefix (parts member.name)) "Source archive has multiple roots" e₂
            λ _ e₃.
              stream_members-IsStream members next out
                (stream_below-IsStream stream next prefix (rest_of (parts member.name)) member s e₃)
                e₁

  -- What holds of each member at its path holds of all that is written.
  module _ (P : List ℕ × Member → Type 0) where
    write_pinned-Every :
        (stream out : Stream) (prefix name : List ℕ) (pin : Pin) (member : Member)
        → P (name, member)
        → Every P stream.written
        → write_pinned fold selected stream prefix name pin member ≡ ok out
        → Every P out.written
    unfolding write_pinned
    write_pinned-Every stream out prefix name pin member holds all e =
        require-elim
          (not (
            contains (fold name) stream.seen
            || not (name ≟ pin.path)
            || not (is_regular member.kind)))
          "Duplicate, aliased or non-regular selected source" e
          λ valid e₁.
            require-elim (leb_ℤ member.size pin.bytes && leb_ℤ pin.bytes member.size)
              "Selected archive file size differs from the pin" e₁
              λ sized e₂.
                let same : name ≡ pin.path = (≟_iff name pin.path).0 (not-false (three valid).1) in
                rw (sym (ok-injective e₂))
                  (Every-append P stream.written (pin.path, member) all (rw (sym same) holds))

    stream_members-Every :
        (members : List Member) (stream out : Stream)
        → Every (λ m. P (as_posix (rest_of (parts m.name)), m)) members
        → Every P stream.written
        → stream_members fold selected stream members ≡ ok out
        → Every P out.written
    unfolding stream_members stream_member stream_below
    stream_members-Every [] stream out each all e = rw (sym (ok-injective e)) all
    stream_members-Every (member ∷ members) stream out each all e =
        let prefix = root_of stream.prefix (parts member.name) in
        >>=-elim (stream_member fold selected stream member) e λ next streamed e₁.
          require-elim (not (is_unsafe member.name)) "Unsafe source archive path" streamed λ _ e₂.
            require-elim (first_is prefix (parts member.name)) "Source archive has multiple roots"
              e₂
              λ _ e₃.
                stream_members-Every members next out each.1
                  (member_below next prefix (rest_of (parts member.name)) e₃ each.0) e₁
      where
        member_below :
            (next : Stream) (prefix : List ℕ) (words : List (List ℕ))
            → stream_below fold selected stream prefix words member ≡ ok next
            → P (as_posix words, member)
            → Every P next.written
        member_below next prefix [] h holds =
            require-elim (is_directory member.kind) "Source archive root is not a directory" h
              λ _ is. rw (sym (ok-injective is)) all
        member_below next prefix (w ∷ ws) h holds =
            elim (Option-cases (pin_of (fold (as_posix (w ∷ ws))) selected)) [
              | inl unpinned ↦
                  let same : (record stream { prefix = some prefix }) ≡ next =
                    ok-injective (rw (unpinned, stream_below) at h) in
                  rw (sym same) all
              | inr (pin, pinned) ↦
                  write_pinned-Every stream next prefix (as_posix (w ∷ ws)) pin member holds all
                    (rw (pinned, stream_below) at h)
            ]

  members-FromMembers :
      (all members : List Member)
      → ((w : List ℕ × Member) → FromMembers members w → FromMembers all w)
      → Every (λ m. FromMembers all (as_posix (rest_of (parts m.name)), m)) members
  members-FromMembers all [] known = tt
  members-FromMembers all (m ∷ ms) known = (
    known (as_posix (rest_of (parts m.name)), m) (inl (refl, refl)),
    members-FromMembers all ms λ w from. known w (inr from),
  )

  -- `unpack_selected` writes exactly the selected files: each thing written is one of the
  -- members, at the path that its name has below the root of the archive, and a regular file of
  -- the path and size pinned under its folded path; no folded path is written twice, and every
  -- key of the selection is written.
  pub unpack_selected-IsUnpacked :
      (members : List Member) (written : List (List ℕ × Member))
      → unpack_selected fold selected members ≡ ok written
      → IsUnpacked fold selected members written
  unfolding unpack_selected
  unpack_selected-IsUnpacked members written e =
      >>=-elim (stream_members fold selected no_stream members) e λ stream streamed e₁.
        require-elim
          (all_in stream.seen (keys_of selected) && all_in (keys_of selected) stream.seen)
          "Source archive is missing selected files" e₁
          λ same e₂.
            let s =
              stream_members-IsStream members no_stream stream
                (record { exact = tt; names_seen = refl; distinct = tt }) streamed in
            let (_, all) =
              and-eq-true (all_in stream.seen (keys_of selected))
                (all_in (keys_of selected) stream.seen) same in
            rw (sym (ok-injective e₂)) (record {
              from =
                  stream_members-Every (FromMembers members) members no_stream stream
                    (members-FromMembers members members λ w from. from) tt streamed;
              exact = s.exact;
              distinct = rw s.names_seen at s.distinct;
              complete = rw s.names_seen at (all_in-Every (keys_of selected) stream.seen all);
            })
