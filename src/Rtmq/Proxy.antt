-- ===== src/Rtmq/Proxy.antt =====
-- What a client sends when it connects: rtmq_link_auth_req, rtmq_add_sub_req and rtmq_sub_req of
-- src/clang/lib/rtmq/proxy/rtmq_proxy_tsvr.c, called by rtmq_proxy_tsvr_reconn.
pub mod Fields
pub mod Connect
mod Tests
use beehive_im.Common.{ℕ, ◌+◌, ◌-◌, List, [], ◌∷◌, ◌++◌, map, nat_key, length, take, replicate}
use beehive_im.Rtmq.Wire.{Message, chksum_val, sys_mesg, htonl}
use beehive_im.Rtmq.Auth.{usr_max_len, pwd_max_len}
use beehive_im.Rtmq.Link.{auth_req, sub_req}

-- `nid` and `gid` of rtmq_proxy_conf_t, and its `auth`
pub record ProxyConf : Type 0 where
  pub nid : ℕ
  pub gid : ℕ
  pub usr : List ℕ
  pub passwd : List ℕ

-- What `snprintf` of a string leaves in a field that was all zeros.
abbrev pub text_field : ℕ → List ℕ → List ℕ
text_field size s = take (size - 1) s ++ replicate (size - length (take (size - 1) s)) 0

abbrev pub sys_request : ProxyConf → ℕ → List ℕ → Message
sys_request conf type body = record {
  head = record {
    type = type;
    nid = conf.nid;
    flag = sys_mesg;
    length = length body;
    chksum = chksum_val;
  };
  body = body;
}

unfoldable pub rtmq_link_auth_req : ProxyConf → Message
rtmq_link_auth_req conf =
    sys_request conf auth_req
      (htonl conf.gid ++ (text_field usr_max_len conf.usr ++ text_field pwd_max_len conf.passwd))

unfoldable pub rtmq_add_sub_req : ProxyConf → ℕ → Message
rtmq_add_sub_req conf type = sys_request conf sub_req (htonl type)

-- For the types registered, in the order of the traversal
abbrev pub rtmq_sub_req : ProxyConf → List ℕ → List Message
rtmq_sub_req conf types = map (rtmq_add_sub_req conf) types

-- The messages put into `mesg_list` by `rtmq_proxy_tsvr_reconn`
abbrev pub rtmq_proxy_tsvr_reconn : ProxyConf → List ℕ → List Message
rtmq_proxy_tsvr_reconn conf types = rtmq_link_auth_req conf ∷ rtmq_sub_req conf types
