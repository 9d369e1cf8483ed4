-- ===== src/Model/Http.antt =====
-- What is sent over HTTP and what comes back, and the three platform configurations.
use social.Prelude.{ℕ, String, Bool, Option, List}
use social.Prelude.Int.{ℤ}

pub record Request : Type 0 where
  pub method : String
  pub url : String
  -- the Authorization header
  pub auth : String
  -- the fields of the form, of the JSON object or of the multipart body, in order
  pub fields : List (String × String)

-- A JSON body that decodes: its text fields and its numeric fields, by path.
pub record Json : Type 0 where
  pub text : String → String
  pub number : String → ℤ

pub record Response : Type 0 where
  pub status : ℕ
  pub retry_after : String
  pub content_type : String
  pub body : String
  -- whether the body can be read to its end
  pub readable : Bool
  -- `none`: json.Unmarshal fails
  pub json : Option Json

-- The answer of `client.Do`, or its error text.
pub data Reply : Type 0 where
  unreachable : String → Reply
  reply : Response → Reply

-- MastodonConfig, LinkedInConfig and xConfig have these fields; LinkedIn has neither an instance
-- nor scopes, X no instance.
pub record ClientConfig : Type 0 where
  pub client_id : String
  pub client_secret : String
  pub instance_url : String
  pub redirect_url : String
  pub success_url : String
  pub scopes : List String

-- The OAuth app of a platform, as create_platform_config stores it.
pub record PlatformConfig : Type 0 where
  pub client_id : String
  pub client_secret : String
  pub redirect_url : String
  pub instance_url : String
  pub success_url : String
  pub scopes : List String

-- The fields `mastodon`, `linkedin` and `twitter` of Social: `none` where the client is nil.
pub record Clients : Type 0 where
  pub mastodon : Option ClientConfig
  pub linkedin : Option ClientConfig
  pub twitter : Option ClientConfig

-- A net.IP: an IPv4 address (also one that is written as an IPv6 address) as a number of 32 bits,
-- or another IPv6 address as one of 128.
pub data Ip : Type 0 where
  v4 v6 : ℕ → Ip
