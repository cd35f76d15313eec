-- ===== src/Qlib/Samples.antt =====
-- A server with two users, for tests: external functions that are easy to read, and states of links.
use mnm.Prelude.{true, false, some, [], ◌∷◌, text}
use mnm.UserDb.Model.{User, zero_user}
use mnm.UserDb.Op.{UserDb}
use mnm.Qlib.Openid.{refused, bad_token}
use mnm.Qlib.Op.{eof}
use mnm.Qlib.Server.{Queue, Server, State, Env, new_link}

abbrev pub env : Env
env = record {
  marshal = λ m. text "{}";
  crc32 = λ s. 7;
  base32 = λ s. s;
  unbase32 = λ s. some s;
  sha1 = λ s. s;
  sha256 = λ s. s;
  seconds = text "1";
  posted = text "today";
  error_text = λ e. text "error";
  random = text "phone====";
  check_sum = λ o. 0;
  is_print = λ r. true;
  validate = λ tok. refused bad_token;
  site_name = text "site";
  auth_type = 0;
  auth_by = [];
  auth_optional = false;
}

abbrev pub with_phone : User
with_phone = record zero_user {
  nodes = some ((text "phone", record { defunct = false; num = 1 }) ∷ []);
  non_defunct_nodes_count = 1;
}

abbrev pub db : UserDb
db = record {
  user = (text "5", with_phone) ∷ (text "6", with_phone) ∷ [];
  alias = [];
  group = [];
  disk = record { temp = []; users = []; groups = []; links = [] };
}

abbrev pub server : Server
server = record {
  db = db;
  store = record { next_id = 41; temp = []; dirs = []; files = [] };
  ohi = [];
  nodes = [];
}

abbrev pub offline : State
offline = record { link = new_link (record { pieces = []; ending = eof }); server = server }

abbrev pub busy : Queue
busy = record { has_conn = true; buf = []; ack = []; ohi = [] }

abbrev pub online : State
online = record {
  link = record offline.link {
    tmtprev = text "1";
    uid = text "5";
    node = text "5.01";
    queue = true;
  };
  server = record server { nodes = (text "5.01", some busy) ∷ [] };
}
