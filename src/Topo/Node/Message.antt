-- ===== src/Topo/Node/Message.antt =====
-- The texts that server and clients exchange: a line of the server's answer and its parse by
-- `assoc_info_get_from_omp`, and the answer as a whole.
use k8s.Common.{
  Bytes, ◌≡◌, some, List, [], ◌∷◌, IsWord, AllFields, scan_fields-print_fields, Lacks, refl, sym,
  ap, Option, none, ◌++◌, append-nil, get_or, is_nil, if◌then◌else◌, ◌∙◌, append_assoc,
}
use k8s.Topo.Node.{
  NodeInfo, assoc_info_line, assoc_info_get_from_omp, NodeList, assoc_info_reply_cb,
  assoc_info_reply_msg,
}
use k8s.Elem.{list_element}

abbrev pub line_fields : NodeInfo → List Bytes
line_fields d =
    d.name ∷ d.type_name ∷ d.group ∷ d.mgnt_pri_ip ∷ d.mgnt_sec_ip ∷ d.mgnt_port ∷ d.serv_pri_ip
    ∷ d.serv_sec_ip ∷ d.info_name ∷ []

-- The nodes whose line can be read back: nine fields that are not empty, and a last one that may be.
pub record IsPublic (d : NodeInfo) : Type 0 where
  pub fields : AllFields (line_fields d)
  pub vnfc_id : IsWord d.vnfc_id
  pub one_line : Lacks b'\n' (assoc_info_line d)

-- What a line tells of a node.
abbrev pub public_part : NodeInfo → NodeInfo
public_part d = record d { node_name = []; pod_name = []; chk_exist_flag = 0; heartbeat_tm = 0 }

pub last_field : (w : Bytes) → get_or (if is_nil w then [] else w ∷ []) 0 [] ≡ w
last_field [] = refl
last_field (c ∷ w) = refl

abbrev pub entry_text : Option Bytes → Option NodeInfo → Bytes → Bytes
entry_text none o rest = rest
entry_text (some k) none rest = rest
entry_text (some k) (some d) rest = assoc_info_line d ++ b'\n' ∷ rest

-- A client reads from a line of the answer what the server has in the ten fields of the node.
pub assoc_info_get_from_omp-assoc_info_line :
    (d : NodeInfo)
    → AllFields (line_fields d)
    → IsWord d.vnfc_id
    → assoc_info_get_from_omp (assoc_info_line d) ≡ some (public_part d)
unfolding assoc_info_get_from_omp assoc_info_line
assoc_info_get_from_omp-assoc_info_line d fields word =
    rw (scan_fields-print_fields (line_fields d) d.vnfc_id fields word)
      (ap (λ w. some (record (public_part d) { vnfc_id = w })) (last_field d.vnfc_id))

-- The answer as a text: the line of each element with data, in the order of the list.
abbrev pub reply_text : NodeList → Bytes
reply_text [] = []
reply_text (e ∷ es) = entry_text e.key e.payload (reply_text es)

reply_step :
    (k : Option Bytes) (o : Option NodeInfo) (l : NodeList)
    → ((b : Bytes) → (list_element l assoc_info_reply_cb b).1 ≡ b ++ reply_text l)
    → (buffer : Bytes)
    → (list_element (record { key = k; payload = o } ∷ l) assoc_info_reply_cb buffer).1
      ≡ buffer ++ entry_text k o (reply_text l)
unfolding list_element assoc_info_reply_cb
reply_step none o l ih buffer = ih buffer
reply_step (some k) none l ih buffer = ih buffer
reply_step (some k) (some d) l ih buffer =
    ih (buffer ++ assoc_info_line d ++ b'\n' ∷ []) ∙ simp append_assoc

list_element-reply_text :
    (l : NodeList) (buffer : Bytes)
    → (list_element l assoc_info_reply_cb buffer).1 ≡ buffer ++ reply_text l
unfolding list_element assoc_info_reply_cb
list_element-reply_text [] buffer = sym (append-nil buffer)
list_element-reply_text (e ∷ l) buffer =
    reply_step e.key e.payload l (list_element-reply_text l) buffer

pub assoc_info_reply_msg_lem : (l : NodeList) → assoc_info_reply_msg l [] ≡ reply_text l
unfolding assoc_info_reply_msg
assoc_info_reply_msg_lem l = list_element-reply_text l []
