-- ===== src/Lib.antt =====
-- A model of the station driver for the Ralink RT61 (Module/) and theorems about it.
--
-- Parts, and the files that model them:
--   Mlme/Queue     the message queue of Module/mlme.c: MlmeQueueInit, MlmeEnqueue (mlme_enqueue),
--                  MlmeGetHead, MlmeDequeue, MlmeQueueDestroy, and the loop of
--                  MlmeRestartStateMachine that empties the queue (drain).
--   Mlme/Queue/Steps, Invariant, Safety
--                  the same queue shared by contexts that interleave. Every enqueue is three steps
--                  (the part under the lock, the copy, the write of Occupied), and MlmeHandler is a
--                  loop of four; the steps of different contexts follow one another in any order.
--   Mlme/Machine   StateMachineInit, StateMachineSetAction, StateMachinePerformAction; Tables has
--                  the five tables of Module/auth.c, auth_rsp.c, sync.c, assoc.c and wpa.c, Names
--                  the numbers of Module/rtmp_def.h.
--   Mlme/Recv      MsgTypeSubst, WpaMsgTypeSubst (Module/wpa.c) and MlmeEnqueueForRecv.
--   Mlme/Handler   the switch of MlmeHandler.
--   Wep            Module/rtmp_wep.c: Arcfour (ARCFOUR_INIT to ARCFOUR_ENCRYPT), Fcs (FCSTAB_32 and
--                  RTMP_CALC_FCS32), Engine (RTMPInitWepEngine, RTMPEncryptData, RTMPSetICV), and
--                  Random (LfsrInit and RandomByte of Module/mlme.c).
--   Tkip/Mic       the Michael code of Module/rtmp_tkip.c: RTMPTkipAppendByte to RTMPTkipGetMIC, and
--                  RTMPCalculateMICValue and RTMPTkipCompareMICValue, the two sides that use it.
--   Receive/Duplicate
--                  RTMPSearchTupleCache and RTMPUpdateTupleCache of Module/rtmp_data.c.
--   Bss            BssTableInit, the three searches, BssTableDeleteEntry and BssTableSortByRssi of
--                  Module/mlme.c; Insert is BssEntrySet and BssTableSetEntry, Fields the fields of an
--                  entry, Cipher BssCipherParse, Candidates RTMPCheckAKM and BssTableSsidSort.
--   Scan           FirstChannel and NextChannel of Module/sync.c.
--   Frames         Module/sanity.c. A frame is the list of its bytes, the header of 24 bytes first.
--                  Element has the loop over the elements, Beacon PeerBeaconAndProbeRspSanity (Fields
--                  its variables, Elements the cases of its switch), Edca the WMM parameters, Tim
--                  GetTimBit, AssocRsp PeerAssocRspSanity, Requests the checks of requests,
--                  authentication and probe requests, Rates NetworkTypeInUseSanity and
--                  PeerTxTypeInUseSanity, WepKey RTMPWPAWepKeySanity.
--   Auth           the actions of Module/auth.c and PeerDeauthAction of Module/auth_rsp.c, with
--                  MgtMacHeaderInit and MakeOutgoingFrame of Module/mlme.c (Frame). Run is the machine
--                  with its table, its messages and its timer, as a step relation.
--   Assoc          the actions of Module/assoc.c. State has what they write and do, Request the frames
--                  with their elements, Joined AssocPostProc and RTMPCheckRates of Module/mlme.c, Run
--                  the machine with its table, its messages and its three timers, as a step relation.
--   Wpa            the key handshake of Module/wpa.c and wpa.h. Digest has HMAC_SHA1, PRF, WpaCountPTK
--                  and GenRandom, Unwrap AES_GTK_KEY_UNWRAP, Keys RTMPWPAAddKeyProc of
--                  Module/rtmp_info.c with the four entries of SharedKey, Packet the EAPOL packets and
--                  their MIC, State what the handshake writes and does, Gtk ParseKeyData, Pair the actions
--                  of the pairwise handshake, Group WpaGroupMsg1Action and WpaEAPOLKeyAction; Group/Run has
--                  runs of the last on messages of any content, where kmalloc gives the
--                  action of each its first block of memory, as a step relation.
--   Prelude        C arrays as lists, memcpy and memcmp, Boolean tests, laws of the bit operations.
--
-- How they interact: a received frame becomes a message by MsgTypeSubst, waits in the queue, and is
-- taken by MlmeHandler, which calls the function that the table of its machine holds for the
-- machine's state. The authentication machine checks its frames by Frames, sends its answer to a
-- challenge through the WEP engine, and confirms to the control machine. The association machine
-- puts the ciphers of the configuration into its request, reads the response by Frames, and
-- confirms to the control machine too. A confirmation is a call of MlmeEnqueue, whose result the code
-- does not ask for, as the timers' functions do not; the runs of the two machines have a step in
-- which a timer's message is lost. The key handshake derives the temporal key when message 1
-- comes, answers in data frames signed by it, and gives the keys to the table; the cipher of WEP
-- decrypts group keys sent by TKIP, and the BSS table says whether the access point of a group key
-- is known.
--
-- Conventions. C integers are natural numbers, with the remainder by 2^8 or 2^32 written out where
-- a value may leave its type; `& 0xff` is the remainder by 256. The machine is little-endian.
-- Arrays are lists; the write of one element past the end changes nothing, a memcpy past the end makes
-- the list longer, and a read past the end gives zero; the theorems ask for lengths where this matters. A function pointer is the name of the function.
-- Locks and memory barriers show in the cut of the code into steps: what is under one lock is one
-- step, and steps are taken to be seen by all contexts in one order. The loop that empties the
-- queue takes its count of messages as fuel: each round removes one. The padding loop of
-- RTMPTkipGetMIC has three rounds: a word lacks at most three bytes. The loop over the elements of
-- a frame has a round for each byte of the message, and moves on by at least two. The loops of PRF
-- and of AES_GTK_KEY_UNWRAP count down the rounds that the source gives them. A `CHAR` is signed,
-- and the sign is written out where the code sees it. SHA1, MD5 and AES are parameters (Crypto), as
-- is what memory from kmalloc holds where the code reads it before it writes; each call of kmalloc
-- may fail. `unsigned long` has four bytes in GenRandom.
--
-- Not modelled: the time at which timers fire, the device's registers and rings, the kernel's
-- interfaces, and for now the actions of the other tables, the public digest and cipher code of
-- Module/md5.c, and the look for a vendor's configuration in a probe response. The next value of
-- BssOverlapNr, which C leaves open, is a parameter.
pub mod Prelude
pub mod Mlme
pub mod Wep
pub mod Tkip
pub mod Receive
pub mod Bss
pub mod Scan
pub mod Frames
pub mod Auth
pub mod Wpa
pub mod Assoc
