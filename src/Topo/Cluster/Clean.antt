-- ===== src/Topo/Cluster/Clean.antt =====
-- Nodes and pods of src/topo whose fields survive the way through the texts of the exchange.
use k8s.Common.{
  Bytes, c_string, str_eq_iff, str_eq_refl, ℕ, ◌≡◌, refl, Option, some, List, [], ◌∷◌, ◌++◌, arith,
  print_fields, IsField, IsWord, AllFields, Lacks,
}
use k8s.Elem.Lookup.{find, find-at}
use k8s.Elem.Order.{root_node, IsSorted, nil, cons, IsTable, table}
use k8s.Topo.Context.{MainCtx}
use k8s.Topo.Node.{NodeInfo, NodeList, assoc_info_line, assoc_info_reply_msg}
use k8s.Topo.Node.Message.{line_fields, IsPublic, reply_text, assoc_info_reply_msg_lem}
use k8s.Topo.Udp.Bounds.{IsBounded}
use k8s.Topo.Udp.Client.{report_fields, client_msg, IsReporting}

-- No line end and no NUL.
abbrev pub IsPlain : Bytes → Type 0
IsPlain s = Lacks b'\n' s × Lacks 0 s

pub record IsGood (f : Bytes) : Type 0 where
  pub is_field : IsField f
  pub plain : IsPlain f

abbrev pub AllGood : List Bytes → Type 0
AllGood [] = Unit
AllGood (f ∷ fs) = IsGood f × AllGood fs

pub record IsClean (d : NodeInfo) : Type 0 where
  pub fields : AllGood (line_fields d)
  pub word : IsWord d.vnfc_id
  pub plain : IsPlain d.vnfc_id

pub record IsSane (ctx : MainCtx) : Type 0 where
  pub fields : AllGood (report_fields ctx)
  pub pod_field : IsGood ctx.my_pod_name
  pub word : IsWord ctx.my_pod_name

AllGood-AllFields : (fs : List Bytes) → AllGood fs → AllFields fs
AllGood-AllFields [] g = tt
AllGood-AllFields (f ∷ fs) g = (g.0.is_field, AllGood-AllFields fs g.1)

Lacks-append : (c : ℕ) (s t : Bytes) → Lacks c s → Lacks c t → Lacks c (s ++ t)
Lacks-append c [] t p q = q
Lacks-append c (x ∷ s) t p q = ground (arith, Lacks-append c s t, p, q)

print_fields-IsPlain :
    (fs : List Bytes) (w : Bytes) → AllGood fs → IsPlain w → IsPlain (print_fields fs w)
print_fields-IsPlain [] w g p = p
print_fields-IsPlain (f ∷ fs) w g p =
    let rest = print_fields-IsPlain fs w g.1 p in
    (
      Lacks-append b'\n' f (b'|' ∷ print_fields fs w) g.0.plain.0 (ground (arith, rest.0)),
      Lacks-append 0 f (b'|' ∷ print_fields fs w) g.0.plain.1 (ground (arith, rest.1)),
    )

pub c_string-Lacks : (s : Bytes) → Lacks 0 s → c_string s ≡ s
unfolding c_string
c_string-Lacks [] h = refl
c_string-Lacks (c ∷ s) h = ground (arith, c_string-Lacks s, h)

pub IsClean-IsPlain : (d : NodeInfo) → IsClean d → IsPlain (assoc_info_line d)
unfolding assoc_info_line
IsClean-IsPlain d c = print_fields-IsPlain (line_fields d) d.vnfc_id c.fields c.plain

pub IsClean-IsPublic : (d : NodeInfo) → IsClean d → IsPublic d
IsClean-IsPublic d c = record {
  fields = AllGood-AllFields (line_fields d) c.fields;
  vnfc_id = c.word;
  one_line = (IsClean-IsPlain d c).0;
}

pub IsClean-IsBounded : (d : NodeInfo) → IsClean d → IsBounded d
IsClean-IsBounded d c =
    let (name, (type_name, (group, (pri, (sec, (port, (serv, (serv_sec, (info, _))))))))) =
      c.fields in
    record {
      name = name.is_field.fits;
      type_name = type_name.is_field.fits;
      group = group.is_field.fits;
      mgnt_pri_ip = pri.is_field.fits;
      mgnt_sec_ip = sec.is_field.fits;
      mgnt_port = port.is_field.fits;
      serv_pri_ip = serv.is_field.fits;
      serv_sec_ip = serv_sec.is_field.fits;
      info_name = info.is_field.fits;
      vnfc_id = c.word.fits;
    }

-- The text of a server whose nodes are clean.
reply_text-Lacks :
    {lo : Option Bytes} {es : NodeList}
    → IsSorted lo es
    → ((k : Bytes) (d : NodeInfo) → find es k ≡ some d → IsClean d)
    → Lacks 0 (reply_text es)
unfolding find
reply_text-Lacks nil clean = refl
reply_text-Lacks (cons {k} {d} {es} m s) clean =
    let here = IsClean-IsPlain d (clean k d (ground (arith, str_eq_refl k))) in
    let rest = reply_text-Lacks s λ j e f. clean j e (ground (arith, str_eq_iff j k, find-at s)) in
    Lacks-append 0 (assoc_info_line d) (b'\n' ∷ reply_text es) here.1 (ground (arith, rest))

pub assoc_info_reply_msg-Lacks :
    {l : NodeList}
    → IsTable l
    → ((k : Bytes) (d : NodeInfo) → find l k ≡ some d → IsClean d)
    → Lacks 0 (assoc_info_reply_msg l [])
unfolding find
assoc_info_reply_msg-Lacks (table {es} s) clean =
    rw (assoc_info_reply_msg_lem (root_node ∷ es)) (reply_text-Lacks s clean)

pub IsSane-IsReporting : (ctx : MainCtx) → IsSane ctx → IsReporting ctx
IsSane-IsReporting ctx s = record {
  fields = AllGood-AllFields (report_fields ctx) s.fields;
  pod = s.word;
}

pub IsSane-text : (ctx : MainCtx) → IsSane ctx → c_string (client_msg ctx) ≡ client_msg ctx
unfolding client_msg
IsSane-text ctx s =
    c_string-Lacks (client_msg ctx)
      (print_fields-IsPlain (report_fields ctx) ctx.my_pod_name s.fields s.pod_field.plain).1
