-- ===== src/Paxos/Message.antt =====
-- `compute_message_type` of examples/electrode/compute_message_type.c: the kind of a message, from
-- the letters of its type name.
use dram_pvt_mk.Base.{
  ℕ, List, [], ◌∷◌, Bool, true, ◌&&◌, ◌==◌, if◌then◌else◌, Option, none, some, length, get_or, ltb,
}
use dram_pvt_mk.Paxos.{prepare_type_len, request_type_len, prepareok_type_len, myprepareok_type_len}

pub data MessageType : Type 0 where
  xdp_handle_prepare : MessageType
  xdp_handle_request : MessageType
  xdp_handle_prepareok : MessageType

-- `payload[i] == c && ...` for each pair of the list.
abbrev pub reads : List ℕ → List (ℕ × ℕ) → Bool
reads payload [] = true
reads payload ((i, c) ∷ rest) = get_or payload i 0 == c && reads payload rest

-- "vr" at 10, and "PrepareM" at 19.
abbrev pub prepare_letters : List (ℕ × ℕ)
prepare_letters =
    (10, b'v')
    ∷ (11, b'r')
    ∷ (19, b'P')
    ∷ (20, b'r')
    ∷ (21, b'e')
    ∷ (22, b'p')
    ∷ (23, b'a')
    ∷ (24, b'r')
    ∷ (25, b'e')
    ∷ (26, b'M')
    ∷ []

-- "vr" at 10, and "RequestM" at 19.
abbrev pub request_letters : List (ℕ × ℕ)
request_letters =
    (10, b'v')
    ∷ (11, b'r')
    ∷ (19, b'R')
    ∷ (20, b'e')
    ∷ (21, b'q')
    ∷ (22, b'u')
    ∷ (23, b'e')
    ∷ (24, b's')
    ∷ (25, b't')
    ∷ (26, b'M')
    ∷ []

-- "vr" at 10, and "PrepareO" at 19.
abbrev pub prepareok_letters : List (ℕ × ℕ)
prepareok_letters =
    (10, b'v')
    ∷ (11, b'r')
    ∷ (19, b'P')
    ∷ (20, b'r')
    ∷ (21, b'e')
    ∷ (22, b'p')
    ∷ (23, b'a')
    ∷ (24, b'r')
    ∷ (25, b'e')
    ∷ (26, b'O')
    ∷ []

-- "vr" at 10, and "MyPr" at 13.
abbrev pub myprepareok_letters : List (ℕ × ℕ)
myprepareok_letters =
    (10, b'v') ∷ (11, b'r') ∷ (13, b'M') ∷ (14, b'y') ∷ (15, b'P') ∷ (16, b'r') ∷ []

-- The list is the packet from `payload` on, and `none` is the -1.
unfoldable pub compute_message_type : List ℕ → Option MessageType
compute_message_type payload =
    if ltb prepare_type_len (length payload) && reads payload prepare_letters
    then some xdp_handle_prepare
    else if ltb request_type_len (length payload) && reads payload request_letters
    then some xdp_handle_request
    else if ltb prepareok_type_len (length payload) && reads payload prepareok_letters
    then some xdp_handle_prepareok
    else if ltb myprepareok_type_len (length payload) && reads payload myprepareok_letters
    then some xdp_handle_prepareok
    else none
