-- ===== src/Gms/Join.antt =====
-- What the leader and a member that joins exchange (managed_group_impl.h): commit_join, and the same
-- writes in the constructors, with the objects behind them, against join_existing. A socket is the
-- list of the bytes that come from it; the serialisation of a view and of the parameters is a `Codec`.
-- A read that fails is `none`: the assertion behind it stops the program (the size of the parameters
-- is read without one, and the next read, of so many bytes as the unset size says, is not modelled).
-- The exchange of the identifiers before is left out. The constructor that recovers a leader writes
-- what commit_join writes, and no objects.
use old_derecho.Base.{ℕ, ◌≡◌, refl, sym, ap, ◌∙◌, Option, none, some, List, [], ◌++◌, length}
use mathlib.Core.List.{append_assoc, append-nil}
use old_derecho.Base.Bytes.{write_le}
use old_derecho.Rpc.Invocable.{Codec, RoundTrips, serialize_all}
use old_derecho.Rpc.Wire.{IsWord}
use old_derecho.Rpc.Call.Parts.{AllRoundTrip}
use old_derecho.Rpc.Objects.{
  read_bytes, read_sized, read_sized-append, send_objects, receive_objects,
  receive_objects-send_objects,
}
use old_derecho.View.{View}

-- The size of an object as eight bytes, and the object (size, then mutils::post_object)
unfoldable pub sized_bytes : {V : Type 0} → Codec V → V → List ℕ
sized_bytes c v = write_le 8 (length (c.to_bytes v)) ++ c.to_bytes v

-- One object of join_existing: its size, a buffer of that size, and mutils::from_bytes.
unfoldable pub read_value : {V : Type 0} → Codec V → List ℕ → Option (V × List ℕ)
unfolding read_sized
read_value c incoming = elim (read_sized incoming) [
  | none ↦ none
  | some (buffer, rest) ↦ some (c.from_bytes buffer, rest)
]

module _ {Params : Type 0} (view_codec : Codec View) (params_codec : Codec Params) where
  -- commit_join
  unfoldable pub commit_join : View → Params → List ℕ
  unfolding sized_bytes
  commit_join new_view derecho_params =
      sized_bytes view_codec new_view ++ sized_bytes params_codec derecho_params

module _ {Params Object : Type 0} (view_codec : Codec View) (params_codec : Codec Params)
    (cs : List (Codec Object)) where
  -- All that a leader sends to a member that joins.
  unfoldable pub welcome : View → Params → List Object → List ℕ
  unfolding commit_join send_objects
  welcome new_view derecho_params objects =
      commit_join view_codec params_codec new_view derecho_params ++ send_objects cs objects

  -- join_existing: the view, the parameters, the objects, and what follows on the socket.
  unfoldable pub join_existing : List ℕ → Option (View × Params × List Object × List ℕ)
  unfolding read_value receive_objects
  join_existing incoming = elim (read_value view_codec incoming) [
    | none ↦ none
    | some (new_view, behind) ↦ elim (read_value params_codec behind) [
      | none ↦ none
      | some (derecho_params, objects_behind) ↦ elim (receive_objects cs objects_behind) [
        | none ↦ none
        | some (objects, rest) ↦ some (new_view, derecho_params, objects, rest)
      ]
    ]
  ]

read_value-sized_bytes :
    {V : Type 0} (c : Codec V) (v : V) (rest : List ℕ)
    → RoundTrips c v
    → IsWord (length (c.to_bytes v))
    → read_value c (sized_bytes c v ++ rest) ≡ some (v, rest)
unfolding read_value sized_bytes
read_value-sized_bytes c v rest trips fits =
    let bytes = c.to_bytes v in
    let same : c.from_bytes bytes ≡ v = ap c.from_bytes (sym (append-nil bytes)) ∙ trips [] in
    rw (read_value, read_sized-append (length bytes) bytes rest refl fits)
      (ap (λ x. some (x, rest)) same)

-- A member that joins reads the view, the parameters and the objects that the leader sends, whatever
-- comes behind them on the socket, if the serialisation of each is read back, there is an object for
-- each type, and the lengths of the view, of the parameters and of all objects fit in 64 bits.
pub join_existing-welcome :
    {Params Object : Type 0} (view_codec : Codec View) (params_codec : Codec Params)
    (cs : List (Codec Object)) (v : View) (p : Params) (objects : List Object) (rest : List ℕ)
    → RoundTrips view_codec v
    → RoundTrips params_codec p
    → AllRoundTrip cs objects
    → IsWord (length (view_codec.to_bytes v))
    → IsWord (length (params_codec.to_bytes p))
    → IsWord (length (serialize_all cs objects))
    → join_existing view_codec params_codec cs
        (welcome view_codec params_codec cs v p objects ++ rest)
      ≡ some (v, p, objects, rest)
unfolding join_existing welcome commit_join
join_existing-welcome view_codec params_codec cs v p objects rest trips trips' all fits fits'
      fits'' =
    let view_bytes = sized_bytes view_codec v in
    let params_bytes = sized_bytes params_codec p in
    let behind = send_objects cs objects ++ rest in
    let parts : ((view_bytes ++ params_bytes) ++ send_objects cs objects) ++ rest
        ≡ view_bytes ++ (params_bytes ++ behind) =
      append_assoc (view_bytes ++ params_bytes) (send_objects cs objects) rest
      ∙ append_assoc view_bytes params_bytes behind in
    rw
      (
        parts,
        join_existing,
        read_value-sized_bytes view_codec v (params_bytes ++ behind) trips fits,
        read_value-sized_bytes params_codec p behind trips' fits',
        receive_objects-send_objects cs objects rest all fits'',
      )
      refl

no_objects_sent : {Object : Type 0} (cs : List (Codec Object)) → receive_objects cs [] ≡ none
unfolding receive_objects read_sized read_bytes
no_objects_sent cs = refl

-- A member that joins and is sent the view and the parameters alone, without the objects, does not get
-- through: nothing is left for its read of the objects' size, which fails. The serialisation of the
-- two must be read back and their lengths must fit in 64 bits.
pub join_existing-commit_join :
    {Params Object : Type 0} (view_codec : Codec View) (params_codec : Codec Params)
    (cs : List (Codec Object)) (v : View) (p : Params)
    → RoundTrips view_codec v
    → RoundTrips params_codec p
    → IsWord (length (view_codec.to_bytes v))
    → IsWord (length (params_codec.to_bytes p))
    → join_existing view_codec params_codec cs (commit_join view_codec params_codec v p) ≡ none
unfolding join_existing commit_join
join_existing-commit_join view_codec params_codec cs v p trips trips' fits fits' =
    let params_bytes = sized_bytes params_codec p in
    let second : read_value params_codec params_bytes ≡ some (p, []) =
      ap (read_value params_codec) (sym (append-nil params_bytes))
      ∙ read_value-sized_bytes params_codec p [] trips' fits' in
    rw (join_existing, read_value-sized_bytes view_codec v params_bytes trips fits, second)
      (ap (λ r. elim r [ none ↦ none | some (objects, rest) ↦ some (v, p, objects, rest) ])
        (no_objects_sent cs))
