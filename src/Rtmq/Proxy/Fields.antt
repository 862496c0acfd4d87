-- ===== src/Rtmq/Proxy/Fields.antt =====
-- How the server reads the requests of a client: src/clang/lib/rtmq/proxy/rtmq_proxy_tsvr.c against
-- src/clang/lib/rtmq/server/rtmq_rsvr.c.
use beehive_im.Common.{
  ℕ, zero, suc, ◌-◌, ◌^◌, ◌≡◌, ◌≢◌, ◌≤◌, ◌<◌, ◌∙◌, refl, sym, ap, List, [], ◌∷◌, ◌++◌, append_assoc,
  arith, nat_key, length, take, drop, replicate, length-append, length-take, drop-length,
}
use beehive_im.Rtmq.Wire.{ntohl}
use beehive_im.Rtmq.Recv.Split.{IsMessage, ntohl-htonl}
use beehive_im.Rtmq.Recv.Stream.{AreMessages, Fitting}
use beehive_im.Rtmq.Auth.{usr_max_len, pwd_max_len}
use beehive_im.Rtmq.Auth.Known.{IsText}
use beehive_im.Rtmq.Proxy.{
  ProxyConf, text_field, rtmq_link_auth_req, rtmq_add_sub_req, rtmq_sub_req, rtmq_proxy_tsvr_reconn,
}

length-replicate : (n : ℕ) (b : ℕ) → length (replicate n b) ≡ n
length-replicate zero b = refl
length-replicate (suc n) b = ap suc (length-replicate n b)

take_whole : (n : ℕ) (xs : List ℕ) → length xs ≤ n → take n xs ≡ xs
take_whole zero [] h = refl
take_whole (suc n) [] h = refl
take_whole zero (x ∷ xs) h = absurd (omega (arith, h))
take_whole (suc n) (x ∷ xs) h = ap (λ ys. x ∷ ys) (take_whole n xs (omega (arith, h)))

length-text_field : (size : ℕ) (s : List ℕ) → 0 < size → length (text_field size s) ≡ size
length-text_field size s h =
    length-append (take (size - 1) s) _
    ∙ omega
        (arith, length-replicate (size - length (take (size - 1) s)) 0, length-take (size - 1) s, h)

-- A string shorter than its field is there with a zero behind it.
text_field-short :
    (size : ℕ) (s : List ℕ)
    → length s < size
    → text_field size s ≡ s ++ (0 ∷ replicate (size - length s - 1) 0)
text_field-short size s h =
    let whole = take_whole (size - 1) s (omega (arith, h)) in
    let e : size - length s ≡ suc (size - length s - 1) = omega (arith, h) in
    rw whole (ap (λ n. s ++ replicate n 0) e)

drop_past : (n : ℕ) (xs ys : List ℕ) → length xs ≡ n → drop n (xs ++ ys) ≡ ys
drop_past n xs ys e = ap (λ (m : ℕ). drop m (xs ++ ys)) (sym e) ∙ drop-length xs ys

-- A client with a group, and with a name and a password that fit their fields
pub record IsConf (conf : ProxyConf) : Type 0 where
  pub nid_fits : conf.nid < 2 ^ 32
  pub gid_fits : conf.gid < 2 ^ 32
  pub grouped : conf.gid ≢ 0
  pub usr_text : IsText conf.usr
  pub usr_fits : length conf.usr < usr_max_len
  pub passwd_text : IsText conf.passwd
  pub passwd_fits : length conf.passwd < pwd_max_len

abbrev pub TypesFit : List ℕ → Type 0
TypesFit [] = Unit {0}
TypesFit (type ∷ types) = (type < 2 ^ 32) × TypesFit types

-- The body of an authentication request as the server reads it
pub auth_body :
    (conf : ProxyConf)
    → IsConf conf
    → (length (rtmq_link_auth_req conf).body ≡ 52)
      × (ntohl (rtmq_link_auth_req conf).body ≡ conf.gid)
      × (drop 4 (rtmq_link_auth_req conf).body
          ≡ conf.usr
            ++ (0
                ∷ (replicate (usr_max_len - length conf.usr - 1) 0
                    ++ text_field pwd_max_len conf.passwd)))
      × (drop 36 (rtmq_link_auth_req conf).body
          ≡ conf.passwd ++ (0 ∷ replicate (pwd_max_len - length conf.passwd - 1) 0))
unfolding rtmq_link_auth_req
auth_body conf v =
    let name = text_field usr_max_len conf.usr in
    let word = text_field pwd_max_len conf.passwd in
    let name_size : length name ≡ 32 = length-text_field usr_max_len conf.usr (omega arith) in
    let word_size : length word ≡ 16 = length-text_field pwd_max_len conf.passwd (omega arith) in
    (
      omega (arith, length-append name word, name_size, word_size),
      ntohl-htonl conf.gid (name ++ word) v.gid_fits,
      ap (λ f. f ++ word) (text_field-short usr_max_len conf.usr v.usr_fits)
          ∙ append_assoc conf.usr (0 ∷ replicate (usr_max_len - length conf.usr - 1) 0) word,
      drop_past 32 name word name_size ∙ text_field-short pwd_max_len conf.passwd v.passwd_fits,
    )

auth-IsMessage : (conf : ProxyConf) → IsConf conf → IsMessage (rtmq_link_auth_req conf)
unfolding rtmq_link_auth_req
auth-IsMessage conf v =
    let size = (auth_body conf v).0 in
    record {
      type_fits = omega arith;
      nid_fits = v.nid_fits;
      flag_fits = omega arith;
      sized = refl;
      fits = omega (arith, size);
      checked = refl;
    }

subs-AreMessages :
    (conf : ProxyConf) (types : List ℕ) → IsConf conf → AreMessages (rtmq_sub_req conf types)
unfolding rtmq_add_sub_req
subs-AreMessages conf [] v = tt
subs-AreMessages conf (type ∷ types) v = (
  record {
    type_fits = omega arith;
    nid_fits = v.nid_fits;
    flag_fits = omega arith;
    sized = refl;
    fits = omega arith;
    checked = refl;
  },
  subs-AreMessages conf types v,
)

pub reconn-AreMessages :
    (conf : ProxyConf) (types : List ℕ)
    → IsConf conf
    → AreMessages (rtmq_proxy_tsvr_reconn conf types)
reconn-AreMessages conf types v = (auth-IsMessage conf v, subs-AreMessages conf types v)

subs-Fitting :
    (size : ℕ) (conf : ProxyConf) (types : List ℕ)
    → 72 ≤ size
    → Fitting size (rtmq_sub_req conf types)
unfolding rtmq_add_sub_req
subs-Fitting size conf [] big = tt
subs-Fitting size conf (type ∷ types) big = (omega (arith, big), subs-Fitting size conf types big)

pub reconn-Fitting :
    (size : ℕ) (conf : ProxyConf) (types : List ℕ)
    → IsConf conf
    → 72 ≤ size
    → Fitting size (rtmq_proxy_tsvr_reconn conf types)
unfolding rtmq_link_auth_req
reconn-Fitting size conf types v big =
    (omega (arith, big, (auth_body conf v).0), subs-Fitting size conf types big)
