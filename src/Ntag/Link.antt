-- ===== src/Ntag/Link.antt =====
-- crates/bolty-ntag/src/lib.rs, lines 137 to 223 and 339 to 358, and the vendored library ntag424 as
-- the interface `Ntag424`: `C` is what is behind the transport (the link and the card), `S` an
-- authenticated session, `Sdm` the settings of dynamic messaging and `T` the transport's errors. A
-- call may change `C` also when it fails.
use bolty_rs.Prelude.{ℕ, Bool, true, false, Option, List, Result, ok, err, replicate}
use bolty_rs.Prelude.Text.{Text}
use bolty_rs.Prelude.Act.{Act}

pub data KeyNumber : Type 0 where
  key0 key1 key2 key3 key4 : KeyNumber

-- `kn as u8`
abbrev pub number_of : KeyNumber → ℕ
number_of key0 = 0
number_of key1 = 1
number_of key2 = 2
number_of key3 = 3
number_of key4 = 4

pub data NonMasterKeyNumber : Type 0 where
  non_master_key1 non_master_key2 non_master_key3 non_master_key4 : NonMasterKeyNumber

pub data ResponseStatus : Type 0 where
  authentication_delay_status authentication_error_status : ResponseStatus
  other_status : ℕ → ResponseStatus

-- The session's errors; all but an error response are one case.
pub data SessionError (T : Type 0) : Type 0 where
  error_response : ResponseStatus → SessionError T
  session_failure : T → SessionError T

pub data Error (T : Type 0) : Type 0 where
  transport : T → Error T
  sdm_url : Text → Error T
  session : SessionError T → Error T
  authentication_delay : Error T
  wrong_card_type : ℕ → ℕ → Error T
  ndef_verification_failed : ℕ → ℕ → Error T
  key_version_mismatch : ℕ → ℕ → ℕ → Error T
  sdm_verification_failed : Error T
  ndef_not_empty : ℕ → Error T

module _ {T : Type 0} where
  -- `From<SessionError<T>>`
  unfoldable pub from_session_error : SessionError T → Error T
  from_session_error (error_response authentication_delay_status) = authentication_delay
  from_session_error other = session other

  unfoldable pub is_authentication_delay : Error T → Bool
  is_authentication_delay authentication_delay = true
  is_authentication_delay (session (error_response authentication_delay_status)) = true
  is_authentication_delay _ = false

  unfoldable pub is_session_auth_delay : SessionError T → Bool
  is_session_auth_delay (error_response authentication_delay_status) = true
  is_session_auth_delay _ = false

-- `AuthenticatedSession` and `Session` return the UID in one of two forms.
pub data Uid : Type 0 where
  fixed random : List ℕ → Uid

unfoldable pub uid_to_fixed : Uid → List ℕ
uid_to_fixed (fixed f) = f
uid_to_fixed (random r) = replicate 7 0

pub data Access : Type 0 where
  free no_access : Access
  key : KeyNumber → Access

pub record AccessRights : Type 0 where
  pub read : Access
  pub write : Access
  pub read_write : Access
  pub change : Access

abbrev pub burned_ndef_access_rights : AccessRights
burned_ndef_access_rights = record {
  read = free;
  write = key key0;
  read_write = key key0;
  change = key key0;
}

abbrev pub factory_ndef_access_rights : AccessRights
factory_ndef_access_rights = record {
  read = free;
  write = free;
  read_write = free;
  change = key key0;
}

-- What a card's file settings and an update of them both hold. The builder's calls
-- `new(mode, rights)`, `with_sdm` and `without_sdm` of the library fill its fields.
pub record FileSettings (Sdm : Type 0) : Type 0 where
  pub comm_mode : ℕ
  pub access_rights : AccessRights
  pub sdm : Option Sdm

pub record Version : Type 0 where
  pub hw_vendor_id : ℕ
  pub hw_type : ℕ

pub record SdmUrlPlan (Sdm : Type 0) : Type 0 where
  pub ndef_bytes : List ℕ
  pub sdm_settings : Sdm

-- All files are the NDEF file, the only one the code uses. A read takes the offset, the length and
-- the buffer, and gives the count of the bytes read and the buffer.
pub record Ntag424 (C S Sdm T : Type 0) : Type 0 where
  pub sdm_url_config : Text → KeyNumber → KeyNumber → Result Text (SdmUrlPlan Sdm)
  pub has_picc_data : Sdm → Bool
  pub has_file_read : Sdm → Bool
  pub get_selected_uid : C → C × Result (SessionError T) Uid
  pub get_version : C → C × Result (SessionError T) Version
  pub get_file_settings_plain : C → C × Result (SessionError T) (FileSettings Sdm)
  pub read_file_unauthenticated : ℕ → List ℕ → C → C × Result (SessionError T) (ℕ × List ℕ)
  pub authenticate_aes : KeyNumber → List ℕ → List ℕ → C → C × Result (SessionError T) S
  pub get_file_settings : S → C → C × Result (SessionError T) (FileSettings Sdm × S)
  pub change_file_settings : S → FileSettings Sdm → C → C × Result (SessionError T) S
  pub write_file_plain : S → ℕ → List ℕ → C → C × Result (SessionError T) S
  pub read_file_plain : S → ℕ → ℕ → List ℕ → C → C × Result (SessionError T) (ℕ × List ℕ × S)
  pub change_key : S → NonMasterKeyNumber → List ℕ → ℕ → List ℕ → C → C × Result (SessionError T) S
  pub get_key_version : S → KeyNumber → C → C × Result (SessionError T) (ℕ × S)
  pub change_master_key : S → List ℕ → ℕ → C → C × Result (SessionError T) S

-- Work on the card: what was done to it stays done when the work fails.
abbrev pub CardM : Type 0 → Type 0 → Type 0 → Type 0
CardM C T A = Act C (Error T) A

module _ {C T A : Type 0} where
  -- `?` on a call of the session
  unfoldable pub converted : C × Result (SessionError T) A → C × Result (Error T) A
  converted (c, ok a) = (c, ok a)
  converted (c, err e) = (c, err (from_session_error e))

  unfoldable pub call : (C → C × Result (SessionError T) A) → CardM C T A
  unfolding converted
  call f c = converted (f c)
