-- ===== src/Wire/Lossless/Keys.antt =====
-- The encoders and decoders of Wire/Messages/Keys.
use state_spectre.Wire.RoundTrips.{RoundTrips, RoundTrips->>=, RoundTrips-last}
use state_spectre.Wire.RoundTrips.Parts.{
  RoundTrips-put_word, RoundTrips-put_str, word_then, bool_then, str_then,
}
use state_spectre.Wire.Messages.Keys.{
  JobKeyWire, CanonicalTensorKeyWire, ManifestFilterWire, put_job_key, get_job_key, put_key,
  get_key, put_filter, get_filter,
}

pub RoundTrips-put_job_key : (m : JobKeyWire) → RoundTrips (put_job_key m) get_job_key m
unfolding put_job_key get_job_key
RoundTrips-put_job_key m =
    word_then _ (word_then _ (word_then _ (RoundTrips-last _ (RoundTrips-put_str _))))

pub RoundTrips-put_key : (m : CanonicalTensorKeyWire) → RoundTrips (put_key m) get_key m
unfolding put_key get_key
RoundTrips-put_key m = RoundTrips->>= _ (RoundTrips-put_job_key _) (
    word_then _ (
      word_then _ (
        word_then _ (
          word_then _ (
            str_then _ (
              word_then _ (
                word_then _ (
                  word_then _ (
                    word_then _ (
                      word_then _ (
                        word_then _ (
                          word_then _ (
                            word_then _ (
                              word_then _ (
                                word_then _ (
                                  word_then _
                                    (RoundTrips-last _ (RoundTrips-put_word _))))))))))))))))))

pub RoundTrips-put_filter : (m : ManifestFilterWire) → RoundTrips (put_filter m) get_filter m
unfolding put_filter get_filter
RoundTrips-put_filter m = bool_then _ (
    word_then _ (
      bool_then _ (
        word_then _ (
          bool_then _ (
            word_then _ (
              bool_then _
                (word_then _ (bool_then _ (RoundTrips-last _ (RoundTrips-put_word _))))))))))
